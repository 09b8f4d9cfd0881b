-- ===== src/Client/Origin.antt =====
-- Where the candles of a Fetch come from: its checks, the pool and the connection together.
use tradingview_go.Common.{
  ℕ, ◌≡◌, ◌∙◌, sym, ap, inl, inr, true, false, Option, some, List, arith, ℤ, Option-cases,
}
use tradingview_go.Text.{Bytes}
use tradingview_go.Types.{Candle, ChartData}
use tradingview_go.Errors.{Result, ok, Result-cases}
use tradingview_go.Symbols.{normalize_symbol, normalize_resolution}
use tradingview_go.Cache.{Cache, get, find_id}
use tradingview_go.Pool.{Pool}
use tradingview_go.Conn.{Outside, Event, Outcome, returns, fetch_series}
use tradingview_go.Conn.Answers.{AnyOf, EventBrings, fetch_series-Brings}
use tradingview_go.Client.{
  Client, Request, Env, check, key_of, fetch, fetch_checked, fetch_miss, fetch_once,
}
use tradingview_go.Client.Checks.{IsNormal, check-IsNormal}
use tradingview_go.Client.Lease.{fetch_once-ok}
use tradingview_go.Client.Reuse.{answer}

module _ {F : Type 0} where
  get-cached :
      (c : Cache F) (k : Bytes) (now : ℕ) {d : ChartData F}
      → (get c k now).1 ≡ some d
      → d.cached ≡ true
  unfolding get
  get-cached c k now {d} e = elim (Option-cases (c.idx k)) [
    | inl nothing ↦ absurd (ground arith)
    | inr (i, there) ↦ elim (Option-cases (find_id i c.ll)) [
      | inl nothing ↦ absurd (ground arith)
      | inr (x, found) ↦ ground arith
    ]
  ]

  pub fetch_miss-answer :
      (c : Client F) (q : Request) (env : Env F) {chart : ChartData F}
      → (fetch_miss c q env).0 ≡ ok chart
      → (candles : List (Candle F)) × (env.network q ≡ ok candles) × (chart ≡ answer q candles env)
  unfolding fetch_miss
  fetch_miss-answer c q env {chart} e = elim (Result-cases (env.network q)) [
    | inr (x, failed) ↦ absurd (ground arith)
    | inl (candles, got) ↦ (candles, got, ground arith)
  ]

  fetch_checked-answer :
      (c : Client F) (q : Request) (env : Env F) {chart : ChartData F}
      → (fetch_checked c q env).0 ≡ ok chart
      → chart.cached ≡ false
      → (candles : List (Candle F)) × (env.network q ≡ ok candles) × (chart ≡ answer q candles env)
  unfolding fetch_checked
  fetch_checked-answer c q env {chart} e fresh = elim (Option-cases c.cache) [
    | inl off ↦ fetch_miss-answer c q env {chart = chart} (ground arith)
    | inr (cache, on) ↦ elim (Option-cases (get cache (key_of q) env.at_get).1) [
      | inl missed ↦
          let c' = record c { cache = some (get cache (key_of q) env.at_get).0 } in
          fetch_miss-answer c' q env {chart = chart} (ground arith)
      | inr (hit, found) ↦
          let cached = get-cached cache (key_of q) env.at_get found in absurd (ground arith)
    ]
  ]

-- A connection at a fetchSeries: what it has from outside, the ids that are drawn, what its reads give,
-- and what it has written before.
pub record Session (F : Type 0) : Type 0 where
  pub out : Outside F
  pub chart_id : Bytes
  pub series_id : Bytes
  pub events : List Event
  pub sent : List Bytes

-- What a fetchOnce meets: the error of the semaphore, if any, what dial returns if it is called, the
-- clock at the end, the pool, and the connections by their numbers.
pub record Network (F : Type 0) : Type 0 where
  pub waited : Option Bytes
  pub dialed : Result ℕ
  pub now : ℕ
  pub pool : Pool
  pub session : ℕ → Session F

module _ {F : Type 0} where
  -- fetchSeries for a request on a connection.
  abbrev pub series_on : Session F → Request → Outcome (List (Candle F))
  series_on s q =
      (fetch_series s.out s.chart_id s.series_id q.symbol q.resolution q.bars s.events s.sent).0

  -- The network of a Fetch is fetchOnce, and its fetchSeries does not panic.
  pub record Follows (env : Env F) (n : Network F) (series : ℕ → Request → Result (List (Candle F)))
      : Type 0 where
    pub network :
        (q : Request)
        → env.network q ≡ (fetch_once n.waited n.dialed (λ conn. series conn q) n.now n.pool).0
    pub series_is :
        (conn : ℕ) (q : Request) → series_on (n.session conn) q ≡ returns (series conn q)

  -- A chart that a Fetch over an open pool gives and that is not from the cache is what fetchSeries
  -- read on one connection, for a request in normal form with the normal forms of the symbol and of
  -- the resolution that were asked for: its candles are not empty, and one data message that the
  -- connection read brought them. No fetchSeries panics.
  pub fetch-Brings :
      (c : Client F) (symbol resolution : Bytes) (bars : ℤ) (env : Env F) (n : Network F)
      (series : ℕ → Request → Result (List (Candle F))) {chart : ChartData F}
      → Follows env n series
      → n.pool.closed ≡ false
      → (fetch c symbol resolution bars env).0 ≡ ok chart
      → chart.cached ≡ false
      → (q : Request) × (conn : ℕ) × IsNormal q
        × (q.symbol ≡ normalize_symbol symbol)
        × (normalize_resolution resolution ≡ some q.resolution)
        × (chart.symbol ≡ q.symbol)
        × (chart.resolution ≡ q.resolution)
        × (series_on (n.session conn) q ≡ returns (ok chart.candles))
        × AnyOf (EventBrings (n.session conn).out chart.candles) (n.session conn).events
  unfolding fetch
  fetch-Brings c symbol resolution bars env n series {chart} follows opened e fresh =
      elim (Result-cases (check c symbol resolution bars)) [
        | inr (x, refused) ↦ absurd (ground arith)
        | inl (q, passed) ↦
            let (candles, got, is) =
              fetch_checked-answer c q env {chart = chart} (ground arith) fresh in
            let (normal, symbol_is, resolution_is, _) =
              check-IsNormal c symbol resolution bars {q = q} passed in
            let (conn, read, _) =
              fetch_once-ok n.waited n.dialed (λ conn. series conn q) n.now n.pool {cs = candles}
                opened (sym (follows.network q) ∙ got) in
            let s = n.session conn in
            let same : chart.candles ≡ candles = ap (λ d. d.candles) is in
            let answered : series_on s q ≡ returns (ok chart.candles) =
              follows.series_is conn q ∙ ap returns (read ∙ ap ok (sym same)) in
            (
              q,
              conn,
              normal,
              symbol_is,
              resolution_is,
              ap (λ d. d.symbol) is,
              ap (λ d. d.resolution) is,
              answered,
              fetch_series-Brings s.out s.chart_id s.series_id q.symbol q.resolution q.bars s.events
                  s.sent answered,
            )
      ]
