-- ===== src/Cmd/Tests.antt =====
-- The two programs at concrete inputs. A float is a number.
use mathlib.Core.Option
use tradingview_go.Common.{◌≡◌, refl, true, false, none, some, List, [], ◌∷◌, arith, ℕ, pos, inr}
use tradingview_go.Text.{Bytes, codes, beq, trim_space, is_space}
use tradingview_go.Text.Decimal.{atoi}
use tradingview_go.Text.Cut.{split}
use tradingview_go.Errors.{ok, err}
use tradingview_go.Search.{Response, unanswered}
use tradingview_go.Client.{Env, new_client}
use tradingview_go.Client.Goroutines.{Goroutines, multi_of}
use tradingview_go.Cmd.Fetch.{Flags, printed, multi, split_csv, empty_config, fail_with, main}
use tradingview_go.Cmd.Cells
use tradingview_go.Cmd.Cells.{Cell, IsCell, padded, nonempty}
use tradingview_go.Cmd.Server.{ConfigFile, System, contents, read_config, load_config, config_of}
use tradingview_go.Cmd.Layers
use tradingview_go.Cmd.Layers.{first_text, first_positive}

-- The example of the program's comment, with spaces and an empty entry.
split_list :
    split_csv (codes "1h, 4h,,1d ,1w") ≡ codes "1h" ∷ codes "4h" ∷ codes "1d" ∷ codes "1w" ∷ []
unfolding split_csv split trim_space beq
split_list = refl

abbrev cell : Bytes → Cell
cell text = record { left = codes " "; text = text; right = [] }

abbrev cells : List Cell
cells = cell (codes "1h") ∷ cell [] ∷ cell (codes "1d") ∷ []

abbrev flags : Flags
flags = record {
  symbol = codes "COINBASE:ZECUSD";
  resolution = [];
  resolutions = codes " 1h, , 1d";
  bars = pos 300;
  search = [];
  search_type = [];
  search_exchange = [];
  search_limit = pos 25;
}

abbrev silent_goroutines : Goroutines ℕ
silent_goroutines = record { results = λ resolutions bars. []; start = 0; fetched = 0; ended = 0 }

abbrev env : Env ℕ
env = record { at_get = 0; start = 0; fetched = 0; done = 0; at_put = 0; network = λ q. ok [] }

abbrev offline : List (Bytes × Bytes) → Response
offline params = unanswered (codes "offline")

cells-IsCell :
    (IsCell (cell (codes "1h"))) × ((IsCell (cell [])) × ((IsCell (cell (codes "1d"))) × Unit {0}))
unfolding is_space trim_space
cells-IsCell = (
  record { left = (refl, tt); right = tt; trimmed = refl; no_comma = omega arith },
  (
    record { left = (refl, tt); right = tt; trimmed = refl; no_comma = tt },
    (record { left = (refl, tt); right = tt; trimmed = refl; no_comma = omega arith }, tt),
  ),
)

main-resolutions_example :
    main flags offline silent_goroutines env
    ≡ (elim (multi_of
        (new_client empty_config)
        silent_goroutines
        (codes "COINBASE:ZECUSD")
        (codes "1h" ∷ codes "1d" ∷ [])
        (pos 300)) [ err e ↦ fail_with (codes "fetch_multi") e | ok out ↦ printed (multi out) ])
unfolding beq
main-resolutions_example =
    Cells.main-resolutions flags offline silent_goroutines env cells refl (λ h. ground arith)
      (λ h. ground arith) refl cells-IsCell

-- A file that sets the pool, and an environment that sets the host and a pool that is no number.
abbrev settings : ConfigFile
settings = record {
  host = codes "data.tradingview.com";
  auth_token = [];
  pool_size = pos 4;
  enable_cache = true;
}

abbrev getenv : Bytes → Bytes
getenv name = elim (beq name (codes "TRADINGVIEW_HOST")) [
  | true ↦ codes "prodata.tradingview.com"
  | false ↦ elim (beq name (codes "TRADINGVIEW_POOL_SIZE")) [ true ↦ codes "many" | false ↦ [] ]
]

abbrev sys : System
sys = record { unmarshal = λ bytes. inr settings; parse_bool = λ text. none; getenv = getenv }

load_config-layers_example :
    (file : ConfigFile) × (read_config sys (contents (codes "{}")) ≡ inr file)
    × (let c = (new_client {F = ℕ} (config_of sys settings)).cfg in
        (c.host
          ≡ first_text
              (getenv (codes "TRADINGVIEW_HOST") ∷ file.host ∷ codes "data.tradingview.com" ∷ []))
        × (c.auth_token
            ≡ first_text (
                getenv (codes "TRADINGVIEW_AUTH_TOKEN")
                ∷ file.auth_token
                ∷ codes "unauthorized_user_token"
                ∷ []))
        × (c.pool_size
            ≡ first_positive (
                atoi (getenv (codes "TRADINGVIEW_POOL_SIZE"))
                ∷ some file.pool_size
                ∷ some (pos 8)
                ∷ []))
        × (c.enable_cache ≡ Option.get_or none file.enable_cache))
unfolding load_config
load_config-layers_example = Layers.load_config-layers ℕ sys (contents (codes "{}")) refl refl
