-- ===== src/Config/Tests.antt =====
-- The empty configuration, and the theorems at concrete inputs.
use tradingview_go.Common.{◌≡◌, refl, false, none, [], pos}
use tradingview_go.Text.{beq}
use tradingview_go.Config.{Config, default_config, with_defaults}
use tradingview_go.Config.Defaults
use tradingview_go.Config.Defaults.{IsComplete}

-- `Config{}`
abbrev zero_config : Config
zero_config = record {
  host = [];
  auth_token = [];
  pool_size = pos 0;
  handshake_timeout = pos 0;
  fetch_timeout = pos 0;
  idle_conn_timeout = pos 0;
  search_timeout = pos 0;
  cache_ttls = none;
  cache_size = pos 0;
  enable_cache = false;
  candle_history = pos 0;
  user_agent = [];
}

zero_is_default : with_defaults zero_config ≡ default_config
unfolding with_defaults beq
zero_is_default = refl

with_defaults-IsComplete_example : IsComplete (with_defaults zero_config)
with_defaults-IsComplete_example = Defaults.with_defaults-IsComplete zero_config
