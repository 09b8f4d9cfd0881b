-- ===== src/Client/Tests/Sources.antt =====
-- A history of a client with a cache: a Fetch by one goroutine, and another that finds its answer.
use tradingview_go.Common.{ℕ, ◌≡◌, refl, true, List, [], ◌∷◌, pos, arith, some}
use tradingview_go.Text.{Bytes, codes, beq, to_upper, trim_space}
use tradingview_go.Text.Decimal.{format_int, format_nat}
use tradingview_go.Types.{Candle, ChartData, MultiChartData}
use tradingview_go.Errors.{Result, ok}
use tradingview_go.Config.{Config, default_config, with_defaults}
use tradingview_go.Symbols.{normalize_resolution, normalize_symbol, lookup, to_wire, member}
use tradingview_go.Cache.{new_cache, get, put, clone, find_id, put_key, evict, make_cache_key}
use tradingview_go.Client.{
  Request, Env, new_client, check, fetch, fetch_checked, fetch_miss, fetch_multi, collect,
  collect_all, insert,
}
use tradingview_go.Client.Checks.{IsNormal}
use tradingview_go.Client.Reuse.{answer}
use tradingview_go.Client.History.{Section, looks, answers, after_section, after}
use tradingview_go.Client.Gathered
use tradingview_go.Client.Gathered.{Gathered, Ran}
use tradingview_go.Client.Sources
use tradingview_go.Client.Sources.{From, Among}

abbrev config : Config
config = record default_config { enable_cache = true }

abbrev apple : Request
apple = record { symbol = codes "AAPL"; resolution = codes "60"; bars = pos 300 }

abbrev candles : List (Candle ℕ)
candles = record { timestamp = pos 1; open_ = 2; high = 4; low = 1; close = 3; volume = 9 } ∷ []

abbrev env : Env ℕ
env = record {
  at_get = 10;
  start = 11;
  fetched = 12;
  done = 13;
  at_put = 14;
  network = λ q. ok candles;
}

-- Two goroutines miss the cache before one of them puts its answer.
abbrev sections : List (Section ℕ)
sections = looks apple 9 ∷ looks apple 10 ∷ answers apple env ∷ []

apple-IsNormal : IsNormal apple
unfolding member beq
apple-IsNormal = record {
  has_symbol = λ e. absurd (ground arith);
  wire = refl;
  some_bars = refl;
  few_bars = refl;
}

abbrev later : Env ℕ
later = record env { at_get = 1_000 }

found :
    (fetch (after (new_client config) sections) (codes " aapl ") (codes "1h") (pos 0) later).0
    ≡ ok (clone (answer apple candles env))
unfolding fetch check fetch_checked fetch_miss after after_section new_client with_defaults
    new_cache get put find_id put_key evict make_cache_key format_int format_nat
    normalize_resolution normalize_symbol lookup beq to_upper trim_space to_wire member
found = refl

fetch-From_example :
    (q : Request) × (check
        (after (new_client config) sections)
        (codes " aapl ")
        (codes "1h")
        (pos 0)
      ≡ ok q)
    × From
        (with_defaults config).cache_ttls
        (Among sections)
        q
        later
        (clone (answer apple candles env))
fetch-From_example =
    Sources.fetch-From config sections (codes " aapl ") (codes "1h") (pos 0) later
      (apple-IsNormal, (apple-IsNormal, (apple-IsNormal, tt))) found

-- A FetchMulti with one goroutine, which finds that entry.
abbrev ended : List (Bytes × Result (ChartData ℕ))
ended = (codes "1h", ok (clone (answer apple candles env))) ∷ []

abbrev output : MultiChartData ℕ
output = record {
  symbol = codes "AAPL";
  slabs = (codes "60", clone (answer apple candles env)) ∷ [];
  errors = [];
  fetched_at = 2;
  latency_ms = 3;
}

fetched_multi :
    fetch_multi
      (after (new_client config) sections)
      (codes " aapl ")
      (codes "1h" ∷ [])
      ended
      1
      2
      3_000_001
    ≡ ok output
unfolding fetch_multi collect_all collect insert normalize_symbol to_upper trim_space beq new_client
    with_defaults after after_section fetch_miss lookup
fetched_multi = refl

ran :
    Ran config
      (codes " aapl ")
      (codes "1h" ∷ [])
      (pos 0)
      (codes "1h", ok (clone (answer apple candles env)))
unfolding member beq
ran = record {
  launched = refl;
  sections = sections;
  passed = (apple-IsNormal, (apple-IsNormal, (apple-IsNormal, tt)));
  env = later;
  gave = found;
}

there : lookup (codes "60") output.slabs ≡ some (clone (answer apple candles env))
unfolding lookup beq
there = refl

fetch_multi-Gathered_example :
    Gathered config
      (codes " aapl ")
      (codes "1h" ∷ [])
      (pos 0)
      ended
      (codes "60")
      (clone (answer apple candles env))
fetch_multi-Gathered_example =
    Gathered.fetch_multi-Gathered config (after (new_client config) sections) (codes " aapl ")
      (codes "1h" ∷ []) (pos 0) ended 1 2 3_000_001 (codes "60") (clone (answer apple candles env))
      (ran, tt) fetched_multi there
