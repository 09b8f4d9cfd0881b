-- ===== src/Cmd/Fetch.antt =====
-- cmd/tradingview-fetch/main.go: main, splitCSV and fail.
use tradingview_go.Common.{false, not, List, [], ◌∷◌, ◌++◌, if◌then◌else◌, ℤ, pos, none}
use tradingview_go.Text.{Bytes, codes, beq, trim_space}
use tradingview_go.Text.Cut.{split}
use tradingview_go.Types.{ChartData, MultiChartData, SymbolMatch, SearchOptions}
use tradingview_go.Errors.{Error, ok, err, error_text}
use tradingview_go.Config.{Config}
use tradingview_go.Client.{Client, Env, new_client, fetch}
use tradingview_go.Client.Goroutines.{Goroutines, multi_of}
use tradingview_go.Search.{Response, search_symbols}

-- The values of the flags.
pub record Flags : Type 0 where
  pub symbol : Bytes
  pub resolution : Bytes
  pub resolutions : Bytes
  pub bars : ℤ
  pub search : Bytes
  pub search_type : Bytes
  pub search_exchange : Bytes
  pub search_limit : ℤ

-- What is encoded on stdout.
pub data Document (F : Type 0) : Type 0 where
  matches : List SymbolMatch → Document F
  multi : MultiChartData F → Document F
  chart : ChartData F → Document F

-- The end of the program: with a document, or with a line on stderr and the status 1.
pub data Exit (F : Type 0) : Type 0 where
  printed : Document F → Exit F
  failed : Bytes → Exit F

-- The loop of splitCSV.
unfoldable pub keep_cells : List Bytes → List Bytes
keep_cells [] = []
keep_cells (p ∷ parts) =
    let rest = keep_cells parts in
    let cell = trim_space p in if not (beq cell []) then cell ∷ rest else rest

unfoldable pub split_csv : Bytes → List Bytes
unfolding keep_cells
split_csv s = keep_cells (split b',' s)

-- `tradingview.Config{}`
abbrev pub empty_config : Config
empty_config = record {
  host = [];
  auth_token = [];
  pool_size = pos 0;
  handshake_timeout = pos 0;
  fetch_timeout = pos 0;
  idle_conn_timeout = pos 0;
  search_timeout = pos 0;
  cache_ttls = none;
  cache_size = pos 0;
  enable_cache = false;
  candle_history = pos 0;
  user_agent = [];
}

module _ {F : Type 0} where
  -- fail with a formatted error.
  unfoldable pub fail_with : Bytes → Error → Exit F
  unfolding error_text
  fail_with what e = failed (codes "tradingview-fetch: " ++ (what ++ (codes ": " ++ error_text e)))

  unfoldable pub fail : Bytes → Exit F
  fail text = failed (codes "tradingview-fetch: " ++ text)

  -- main behind the parse of the flags: what the server answers to a search, what the goroutines of a
  -- FetchMulti give, and the clock and the network of a Fetch.
  unfoldable pub main : Flags → (List (Bytes × Bytes) → Response) → Goroutines F → Env F → Exit F
  unfolding fail_with fail
  main flags http g env =
      let client : Client F = new_client empty_config in
      let opts : SearchOptions = record {
        kind = flags.search_type;
        exchange = flags.search_exchange;
        lang = [];
        limit = flags.search_limit;
      } in
      if not (beq flags.search [])
      then elim (search_symbols http flags.search opts) [
        | err e ↦ fail_with (codes "search") e
        | ok found ↦ printed (matches found)
      ]
      else if beq flags.symbol []
      then fail (codes "must provide -symbol (or -search)")
      else if not (beq flags.resolutions [])
      then elim (multi_of client g flags.symbol (split_csv flags.resolutions) flags.bars) [
        | err e ↦ fail_with (codes "fetch_multi") e
        | ok out ↦ printed (multi out)
      ]
      else if beq flags.resolution []
      then fail (codes "must provide -resolution or -resolutions")
      else elim (fetch client flags.symbol flags.resolution flags.bars env).0 [
        | err e ↦ fail_with (codes "fetch") e
        | ok out ↦ printed (chart out)
      ]
