-- ===== src/Client/Tests.antt =====
-- The theorems on the client at concrete inputs. A price is a number.
pub mod Network
pub mod Sources
use tradingview_go.Common.{
  ◌≢◌, ap, ℕ, ◌≡◌, refl, false, none, some, List, [], ◌∷◌, arith, ℤ, pos, ◌<◌, ◌≤◌, inl, inr,
}
use tradingview_go.Text.{Bytes, codes, beq, to_upper, trim_space}
use tradingview_go.Types.{Candle, ChartData, MultiChartData}
use tradingview_go.Errors.{error_text, code_text, Result, ok, err, new_err, upstream_timeout}
use tradingview_go.Config.{default_config}
use tradingview_go.Symbols.{normalize_resolution, normalize_symbol, lookup, to_wire, member}
use tradingview_go.Cache.{new_cache, get, clone, find_id}
use tradingview_go.Cache.Refine.{new_cache-IsValid}
use tradingview_go.Pool.{new_pool, take_free, split_last}
use tradingview_go.Pool.Sections.{count_free}
use tradingview_go.Client.{
  collect_all, collect, insert, Client, Request, Env, check, fetch, fetch_once, fetch_multi,
  acquire,
}
use tradingview_go.Client.Checks
use tradingview_go.Client.Checks.{IsNormal}
use tradingview_go.Client.Lease
use tradingview_go.Client.Recall
use tradingview_go.Client.History.{Section, looks, answers, after}
use tradingview_go.Client.Reuse.{answer, Filled}
use tradingview_go.Client.Multi
use tradingview_go.Client.Multi.{Recorded}

abbrev ttls : List (Bytes × ℤ)
ttls = (codes "60", pos 60_000_000_000) ∷ []

-- A client with an empty cache of three entries.
abbrev client : Client ℕ
client = record {
  cfg = record default_config { cache_ttls = some ttls };
  cache = some (new_cache 3);
  is_closed = false;
}

abbrev apple : Request
apple = record { symbol = codes "AAPL"; resolution = codes "60"; bars = pos 300 }

abbrev candle : Candle ℕ
candle = record { timestamp = pos 1; open_ = 2; high = 4; low = 1; close = 3; volume = 9 }

abbrev env : Env ℕ
env = record {
  at_get = 10;
  start = 11;
  fetched = 12;
  done = 13;
  at_put = 14;
  network = λ q. ok (candle ∷ []);
}

asked : check client (codes " aapl ") (codes "1h") (pos 0) ≡ ok apple
unfolding check normalize_resolution normalize_symbol lookup beq to_upper trim_space to_wire member
asked = refl

filled : Filled client apple env (new_cache 3) (candle ∷ []) (pos 60_000_000_000)
unfolding new_cache get find_id lookup beq
filled = record {
  enabled = refl;
  valid = new_cache-IsValid 3;
  room = omega arith;
  missed = refl;
  fetched = refl;
  ttls = ttls;
  configured = refl;
  listed = refl;
  lasts = refl;
}

asked_again : check client (codes "AAPL") (codes "60") (pos 300) ≡ ok apple
unfolding check normalize_resolution normalize_symbol lookup beq to_upper trim_space to_wire member
asked_again = refl

-- In between, another goroutine fetches fewer bars.
abbrev shorter : Request
shorter = record apple { bars = pos 10 }

shorter-IsNormal : IsNormal shorter
unfolding member beq
shorter-IsNormal = record {
  has_symbol = λ e. absurd (ground arith);
  wire = refl;
  some_bars = refl;
  few_bars = refl;
}

shorter-ne : shorter ≢ apple
shorter-ne e = let bars_is : pos 10 ≡ pos 300 = ap (λ q. q.bars) e in absurd (ground arith)

abbrev sections : List (Section ℕ)
sections = looks shorter 20 ∷ answers shorter (record env { at_put = 24 }) ∷ []

fetch-after-fetch_example :
    ((fetch client (codes " aapl ") (codes "1h") (pos 0) env).0
      ≡ ok (answer apple (candle ∷ []) env))
    × ((fetch
          (after (fetch client (codes " aapl ") (codes "1h") (pos 0) env).1 sections)
          (codes "AAPL")
          (codes "60")
          (pos 300)
          (record env { at_get = 1_000 })).0
        ≡ ok (clone (answer apple (candle ∷ []) env)))
unfolding new_cache
fetch-after-fetch_example =
    Recall.fetch-after-fetch client apple env (new_cache 3) (candle ∷ []) (pos 60_000_000_000)
      filled (codes " aapl ") (codes "1h") (codes "AAPL") (codes "60") (pos 0) (pos 300) sections
      (record env { at_get = 1_000 }) asked asked_again (shorter-IsNormal, (shorter-IsNormal, tt))
      (inl shorter-ne, (shorter-ne, tt)) (omega arith) (omega arith)

-- A pool of one, and connection 7, whose fetch fails.
abbrev failing : ℕ → Result (List (Candle ℕ))
failing c = err (new_err upstream_timeout (codes "read") none)

fetch_once-err_example :
    count_free 7 (fetch_once none (ok 7) failing 5 (new_pool 1)).1.free
    ≤ count_free 7 (new_pool 1).free
unfolding fetch_once acquire take_free new_pool split_last
fetch_once-err_example = Lease.fetch_once-err none (ok 7) failing 5 (new_pool 1) 7 refl

-- Two goroutines, one of which fails.
abbrev ended : List (Bytes × Result (ChartData ℕ))
ended =
    (codes "5", err (new_err upstream_timeout (codes "read") none))
    ∷ (codes "1h", ok (answer apple (candle ∷ []) env))
    ∷ []

abbrev output : MultiChartData ℕ
output = record {
  symbol = codes "AAPL";
  slabs = (codes "60", answer apple (candle ∷ []) env) ∷ [];
  errors = (codes "5", codes "tradingview: upstream_timeout: read") ∷ [];
  fetched_at = 2;
  latency_ms = 3;
}

fetched_multi :
    fetch_multi client (codes "aapl") (codes "5" ∷ codes "1h" ∷ []) ended 1 2 3_000_001 ≡ ok output
unfolding fetch_multi collect_all collect insert error_text code_text normalize_symbol beq to_upper
    trim_space
fetched_multi = refl

fetch_multi-Recorded_example : Recorded (codes "1h") (ok (answer apple (candle ∷ []) env)) output
fetch_multi-Recorded_example =
    Multi.fetch_multi-Recorded client (codes "aapl") (codes "5" ∷ codes "1h" ∷ []) ended 1 2
      3_000_001 fetched_multi (codes "1h") (ok (answer apple (candle ∷ []) env))
      (inr (inl (refl, refl)))
