-- ===== src/Client/Reuse.antt =====
-- A Fetch that misses the cache and fills it.
use tradingview_go.Common.{◌-◌, ◌<◌, ◌≡◌, false, none, some, List, arith, ℤ, pos, leb_ℤ}
use tradingview_go.Text.{Bytes}
use tradingview_go.Types.{Candle, ChartData}
use tradingview_go.Errors.{ok}
use tradingview_go.Symbols.{lookup}
use tradingview_go.Cache.{Cache, get, put}
use tradingview_go.Cache.Refine.{IsValid}
use tradingview_go.Client.{Client, Request, Env, check, key_of, fetch_checked, milliseconds}

module _ {F : Type 0} where
  -- What a Fetch returns that went to the network.
  abbrev pub answer : Request → List (Candle F) → Env F → ChartData F
  answer q candles env = record {
    symbol = q.symbol;
    resolution = q.resolution;
    candles = candles;
    fetched_at = env.fetched;
    cached = false;
    latency_ms = milliseconds (env.done - env.start);
  }

  pub check-same :
      (c c' : Client F) (s r : Bytes) (b : ℤ)
      → c'.is_closed ≡ c.is_closed
      → check c' s r b ≡ check c s r b
  unfolding check
  check-same c c' s r b e = rw e

  -- The first call: a miss, a good answer of the network, and a put.
  pub record Filled (c : Client F) (q : Request) (env : Env F) (cache : Cache F)
      (candles : List (Candle F)) (ttl : ℤ) : Type 0 where
    pub enabled : c.cache ≡ some cache
    pub valid : IsValid cache
    pub room : 0 < cache.max
    pub missed : (get cache (key_of q) env.at_get).1 ≡ none
    pub fetched : env.network q ≡ ok candles
    pub ttls : List (Bytes × ℤ)
    pub configured : c.cfg.cache_ttls ≡ some ttls
    pub listed : lookup q.resolution ttls ≡ some ttl
    pub lasts : leb_ℤ ttl (pos 0) ≡ false

  -- The client after that call.
  abbrev pub filled : Client F → Request → Env F → Cache F → List (Candle F) → ℤ → Client F
  filled c q env cache candles ttl = record c {
    cache = some (
        put (get cache (key_of q) env.at_get).0 (key_of q) (some (answer q candles env)) ttl
          env.at_put);
  }

  module _ (c : Client F) (q : Request) (env : Env F) (cache : Cache F) (candles : List (Candle F))
      (ttl : ℤ) (h : Filled c q env cache candles ttl) where
    pub first :
        fetch_checked c q env ≡ (ok (answer q candles env), filled c q env cache candles ttl)
    unfolding fetch_checked
    first = ground (arith, h.enabled, h.missed, h.fetched, h.configured, h.listed)
