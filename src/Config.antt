-- ===== src/Config.antt =====
-- config.go: the configuration and its defaults. Durations are in nanoseconds.
pub mod Defaults
pub mod Tests
use tradingview_go.Common.{
  ℕ, ◌*◌, Bool, true, false, Option, none, some, List, [], ◌∷◌, if◌then◌else◌, ℤ, pos, leb_ℤ,
}
use tradingview_go.Text.{Bytes, codes, beq}

pub record Config : Type 0 where
  pub host : Bytes
  pub auth_token : Bytes
  pub pool_size : ℤ
  pub handshake_timeout : ℤ
  pub fetch_timeout : ℤ
  pub idle_conn_timeout : ℤ
  pub search_timeout : ℤ
  -- `none` is the nil map.
  pub cache_ttls : Option (List (Bytes × ℤ))
  pub cache_size : ℤ
  pub enable_cache : Bool
  pub candle_history : ℤ
  pub user_agent : Bytes

abbrev second : ℕ
second = 1_000_000_000

abbrev minute : ℕ
minute = 60_000_000_000

abbrev hour : ℕ
hour = 3_600_000_000_000

unfoldable pub default_config : Config
default_config = record {
  host = codes "data.tradingview.com";
  auth_token = codes "unauthorized_user_token";
  pool_size = pos 8;
  handshake_timeout = pos (10 * second);
  fetch_timeout = pos (20 * second);
  idle_conn_timeout = pos (5 * minute);
  search_timeout = pos (10 * second);
  cache_size = pos 256;
  enable_cache = false;
  candle_history = pos 300;
  cache_ttls = some (
      (codes "1", pos (5 * second))
      ∷ (codes "5", pos (15 * second))
      ∷ (codes "15", pos (30 * second))
      ∷ (codes "30", pos (45 * second))
      ∷ (codes "60", pos (60 * second))
      ∷ (codes "120", pos (2 * minute))
      ∷ (codes "240", pos (5 * minute))
      ∷ (codes "D", pos (30 * minute))
      ∷ (codes "W", pos (2 * hour))
      ∷ (codes "M", pos (6 * hour))
      ∷ []);
  user_agent = codes "Mozilla/5.0 (Macintosh; Intel Mac OS X 10_15_7) AppleWebKit/537.36";
}

-- `if x == "" { x = d }`
abbrev pub or_text : Bytes → Bytes → Bytes
or_text x d = if beq x [] then d else x

-- `if x <= 0 { x = d }`
abbrev pub or_int : ℤ → ℤ → ℤ
or_int x d = if leb_ℤ x (pos 0) then d else x

-- `if x == nil { x = d }`
abbrev pub or_map {ℓ} : {A : Type ℓ} → Option A → Option A → Option A
or_map none d = d
or_map (some m) d = some m

unfoldable pub with_defaults : Config → Config
unfolding default_config
with_defaults c =
    let d = default_config in
    record c {
      host = or_text c.host d.host;
      auth_token = or_text c.auth_token d.auth_token;
      pool_size = or_int c.pool_size d.pool_size;
      handshake_timeout = or_int c.handshake_timeout d.handshake_timeout;
      fetch_timeout = or_int c.fetch_timeout d.fetch_timeout;
      idle_conn_timeout = or_int c.idle_conn_timeout d.idle_conn_timeout;
      search_timeout = or_int c.search_timeout d.search_timeout;
      cache_size = or_int c.cache_size d.cache_size;
      cache_ttls = or_map c.cache_ttls d.cache_ttls;
      candle_history = or_int c.candle_history d.candle_history;
      user_agent = or_text c.user_agent d.user_agent;
    }
