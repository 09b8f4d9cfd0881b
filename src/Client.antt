-- ===== src/Client.antt =====
-- client.go: Fetch, fetchOnce and FetchMulti over the pool and the cache. Clock readings and what the
-- network gives are arguments.
pub mod Lease
pub mod Checks
pub mod Reuse
pub mod Multi
pub mod Origin
pub mod History
pub mod Keys
pub mod Entries
pub mod Sources
pub mod Recall
pub mod Maps
pub mod Gathered
pub mod Goroutines
pub mod Tests
use tradingview_go.Common.{
  ℕ, ◌+◌, ◌-◌, ◌/◌, Bool, true, false, Option, none, some, List, [], ◌∷◌, ◌++◌, if◌then◌else◌, ℤ,
  pos, negsuc, leb_ℤ, ltb_ℤ, pos_part, length, ◌==◌,
}
use tradingview_go.Text.{Bytes, codes, beq}
use tradingview_go.Types.{Candle, ChartData, MultiChartData}
use tradingview_go.Errors.{
  Error, Result, ok, err, new_err, error_text, symbol_unknown, invalid_resolution, invalid_bars,
  upstream_timeout, closed,
}
use tradingview_go.Config.{Config, with_defaults}
use tradingview_go.Symbols.{lookup, normalize_symbol, normalize_resolution}
use tradingview_go.Cache.{Cache, make_cache_key, new_cache, get, put}
use tradingview_go.Pool.{Pool, pool_closed, must_dial, reuse, take_free, give_back}

abbrev pub default_bars : ℤ
default_bars = pos 300

abbrev pub max_bars : ℤ
max_bars = pos 5000

-- The client without its pool, its log and its HTTP client; `cache` is `none` for the nil pointer.
pub record Client (F : Type 0) : Type 0 where
  pub cfg : Config
  pub cache : Option (Cache F)
  pub is_closed : Bool

unfoldable pub new_client : {F : Type 0} → Config → Client F
new_client cfg =
    let cfg' = with_defaults cfg in
    record {
      cfg = cfg';
      cache = if cfg'.enable_cache then some (new_cache (pos_part cfg'.cache_size)) else none;
      is_closed = false;
    }

-- Close up to the call of the pool's close; the flag says whether that call is made.
unfoldable pub close_client : {F : Type 0} → Client F → Client F × Bool
close_client c = if c.is_closed then (c, false) else (record c { is_closed = true }, true)

-- acquire of pool.go in one piece: `waited` is the error of the semaphore, if any, and `dialed` what
-- dial returns if it is called.
unfoldable pub acquire : Option Bytes → Result ℕ → Pool → Result ℕ × Pool
acquire (some cause) dialed p =
    (err (new_err upstream_timeout (codes "pool acquire canceled") (some cause)), p)
acquire none dialed p =
    let (a, p') = take_free p in
    elim a [
      | pool_closed ↦ (err (new_err closed (codes "pool closed") none), p')
      | must_dial ↦ (dialed, p')
      | reuse c ↦ (ok c, p')
    ]

-- fetchOnce: `series` is fetchSeries on the acquired connection, at whose end the clock reads `now`.
unfoldable pub fetch_once :
    {F : Type 0}
    → Option Bytes
    → Result ℕ
    → (ℕ → Result (List (Candle F)))
    → ℕ
    → Pool
    → Result (List (Candle F)) × Pool
fetch_once waited dialed series now p =
    let (acquired, p') = acquire waited dialed p in
    elim acquired [
      | err e ↦ (err e, p')
      | ok c ↦ elim (series c) [
        | err e ↦ (err e, (give_back p' c false now).0)
        | ok candles ↦ (ok candles, (give_back p' c true now).0)
      ]
    ]

-- A request that has passed the checks of Fetch.
pub record Request : Type 0 where
  pub symbol : Bytes
  pub resolution : Bytes
  pub bars : ℤ

-- Fetch up to its cache key.
unfoldable pub check : {F : Type 0} → Client F → Bytes → Bytes → ℤ → Result Request
check c symbol resolution bars =
    let sym = normalize_symbol symbol in
    if c.is_closed
    then err (new_err closed (codes "client closed") none)
    else if beq sym []
    then err (new_err symbol_unknown (codes "symbol is empty") none)
    else elim (normalize_resolution resolution) [
      | none ↦ err (new_err invalid_resolution (codes "unknown resolution: " ++ resolution) none)
      | some res ↦
          let bars' = if leb_ℤ bars (pos 0) then default_bars else bars in
          if ltb_ℤ max_bars bars'
          then err (new_err invalid_bars (codes "bars exceeds max (5000)") none)
          else ok (record { symbol = sym; resolution = res; bars = bars' })
    ]

-- The clock at the cache's get, before and after the network call, and at the put; and the network.
pub record Env (F : Type 0) : Type 0 where
  pub at_get : ℕ
  pub start : ℕ
  pub fetched : ℕ
  pub done : ℕ
  pub at_put : ℕ
  pub network : Request → Result (List (Candle F))

abbrev pub key_of : Request → Bytes
key_of r = make_cache_key r.symbol r.resolution r.bars

-- Nanoseconds to milliseconds, rounded down.
abbrev pub milliseconds : ℕ → ℕ
milliseconds n = n / 1_000_000

module _ {F : Type 0} where
  -- Fetch after a miss: the network call, and the put.
  unfoldable pub fetch_miss : Client F → Request → Env F → Result (ChartData F) × Client F
  fetch_miss c r env = elim (env.network r) [
    | err e ↦ (err e, c)
    | ok candles ↦
        let out : ChartData F = record {
          symbol = r.symbol;
          resolution = r.resolution;
          candles = candles;
          fetched_at = env.fetched;
          cached = false;
          latency_ms = milliseconds (env.done - env.start);
        } in
        (
          ok out,
          elim c.cache [
            | none ↦ c
            | some cache ↦ elim c.cfg.cache_ttls [
              | none ↦ c
              | some ttls ↦ elim (lookup r.resolution ttls) [
                | none ↦ c
                | some ttl ↦ record c {
                  cache = some (put cache (key_of r) (some out) ttl env.at_put);
                }
              ]
            ]
          ],
        )
  ]

  -- Fetch behind its checks.
  unfoldable pub fetch_checked : Client F → Request → Env F → Result (ChartData F) × Client F
  unfolding fetch_miss
  fetch_checked c r env = elim c.cache [
    | none ↦ fetch_miss c r env
    | some cache ↦
        let (cache', found) = get cache (key_of r) env.at_get in
        let c' = record c { cache = some cache' } in
        elim found [ some hit ↦ (ok hit, c') | none ↦ fetch_miss c' r env ]
  ]

  unfoldable pub fetch : Client F → Bytes → Bytes → ℤ → Env F → Result (ChartData F) × Client F
  fetch c symbol resolution bars env = elim (check c symbol resolution bars) [
    | err e ↦ (err e, c)
    | ok r ↦ fetch_checked c r env
  ]

-- A write to a map.
module _ {V : Type 0} where
  unfoldable pub insert : Bytes → V → List (Bytes × V) → List (Bytes × V)
  insert k v [] = (k, v) ∷ []
  insert k v ((j, w) ∷ m) = if beq j k then (k, v) ∷ m else (j, w) ∷ insert k v m

module _ {F : Type 0} where
  -- The section of a FetchMulti goroutine under the mutex.
  unfoldable pub collect : MultiChartData F → Bytes → Result (ChartData F) → MultiChartData F
  collect out r (err e) = record out { errors = insert r (error_text e) out.errors }
  collect out r (ok chart) = record out { slabs = insert chart.resolution chart out.slabs }

  -- The goroutines in the order in which they get the mutex, each with its resolution and result.
  unfoldable pub collect_all :
      MultiChartData F → List (Bytes × Result (ChartData F)) → MultiChartData F
  unfolding collect
  collect_all out [] = out
  collect_all out ((r, res) ∷ rest) = collect_all (collect out r res) rest

  -- FetchMulti: `results` are the goroutines' results in the order of their ends.
  unfoldable pub fetch_multi :
      Client F
      → Bytes
      → List Bytes
      → List (Bytes × Result (ChartData F))
      → ℕ
      → ℕ
      → ℕ
      → Result (MultiChartData F)
  unfolding collect_all
  fetch_multi c symbol resolutions results start fetched done =
      if c.is_closed
      then err (new_err closed (codes "client closed") none)
      else if length resolutions == 0
      then err (new_err invalid_resolution (codes "no resolutions provided") none)
      else ok
          (record (collect_all
            (record {
              symbol = normalize_symbol symbol;
              slabs = [];
              errors = [];
              fetched_at = 0;
              latency_ms = 0;
            })
            results) { fetched_at = fetched; latency_ms = milliseconds (done - start) })
