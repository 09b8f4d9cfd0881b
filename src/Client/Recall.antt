-- ===== src/Client/Recall.antt =====
-- A later Fetch of the same request is answered from the cache, whatever other calls run in between.
use mathlib.Core.Path.{subst}
use tradingview_go.Common.{
  ℕ, suc, ◌+◌, ◌≤◌, ◌<◌, ◌≡◌, ◌≢◌, refl, sym, ap, ◌∙◌, ◌⊎◌, inl, inr, some, List, [], ◌∷◌, arith,
  length, ℤ, pos_part, All, Bool,
}
use tradingview_go.Text.{Bytes}
use tradingview_go.Types.{Candle}
use tradingview_go.Errors.{ok}
use tradingview_go.Cache.{Cache, clone, get, put}
use tradingview_go.Cache.Spec.{Item}
use tradingview_go.Cache.Refine.{get-Step}
use tradingview_go.Cache.Held.{Holds, Holds-suc, get-Holds, put-Holds, get-held, put-held}
use tradingview_go.Client.{Client, Request, Env, check, key_of, fetch, fetch_checked}
use tradingview_go.Client.Checks.{IsNormal, check-IsNormal}
use tradingview_go.Client.History.{Section, looks, answers, closes, after_section, after, HasPassed}
use tradingview_go.Client.Entries.{fetch_miss-puts}
use tradingview_go.Client.Keys.{key_of-injective}
use tradingview_go.Client.Reuse.{answer, Filled, filled, first, check-same}

module _ {F : Type 0} where
  -- The section is of another request, or looks for this one before the deadline, and is not Close.
  abbrev pub Spares : Request → ℕ → Section F → Type 0
  Spares q deadline (looks p now) = (p ≢ q) ⊎ (now ≤ deadline)
  Spares q deadline (answers p env) = p ≢ q
  Spares q deadline closes = ⊥

  module _ (q : Request) (normal : IsNormal q) (stored : Item F) (max : ℕ)
      (key_is : stored.key ≡ key_of q) where
    other_key : (p : Request) → IsNormal p → p ≢ q → key_of p ≢ stored.key
    other_key p h ne e = ne (key_of-injective p q h normal (e ∙ key_is))

    -- The client is closed or open as before, and its cache holds the entry.
    record Ready (is_closed : Bool) (n : ℕ) (c : Client F) : Type 0 where
      closed_is : c.is_closed ≡ is_closed
      cache : Cache F
      on : c.cache ≡ some cache
      holds : Holds stored max n cache

    after_section-Ready :
        (is_closed : Bool) (n : ℕ) (c : Client F) (s : Section F)
        → suc n < max
        → HasPassed s
        → Spares q stored.expires_at s
        → Ready is_closed n c
        → Ready is_closed (suc n) (after_section c s)
    unfolding after_section
    after_section-Ready is_closed n c (looks p now) room passed spares r =
        let next : after_section c (looks p now)
            ≡ record c { cache = some (get r.cache (key_of p) now).0 } =
          ground (arith, r.on) in
        subst (Ready is_closed (suc n)) (sym next) (record {
          closed_is = r.closed_is;
          cache = (get r.cache (key_of p) now).0;
          on = refl;
          holds = get-Holds stored max n r.cache (key_of p) now apart r.holds;
        })
      where
        apart : (key_of p ≢ stored.key) ⊎ (now ≤ stored.expires_at)
        apart = elim spares [ inl ne ↦ inl (other_key p passed ne) | inr early ↦ inr early ]
    after_section-Ready is_closed n c (answers p env) room passed ne r =
        elim (fetch_miss-puts c p env) [
          | inl same ↦ subst (Ready is_closed (suc n)) (sym same) (record {
            closed_is = r.closed_is;
            cache = r.cache;
            on = r.on;
            holds = Holds-suc stored max n r.cache r.holds;
          })
          | inr (cache, candles, table, ttl, on, got, set, listed, put_it) ↦
              let same : r.cache ≡ cache = ground (arith, r.on) in
              let holds = subst (Holds stored max n) same r.holds in
              subst (Ready is_closed (suc n)) (sym put_it) (record {
                closed_is = r.closed_is;
                cache = put cache (key_of p) (some (answer p candles env)) ttl env.at_put;
                on = refl;
                holds =
                    put-Holds stored max n cache (key_of p) (answer p candles env) ttl env.at_put
                      room (other_key p passed ne) holds;
              })
        ]
    after_section-Ready is_closed n c closes room passed spares r = absurd spares

    after-Ready :
        (is_closed : Bool) (n : ℕ) (c : Client F) (l : List (Section F))
        → n + length l < max
        → All HasPassed l
        → All (Spares q stored.expires_at) l
        → Ready is_closed n c
        → (m : ℕ) × Ready is_closed m (after c l)
    unfolding after
    after-Ready is_closed n c [] room passed spares r = (n, r)
    after-Ready is_closed n c (s ∷ l) room (p, passed) (sp, spares) r =
        after-Ready is_closed (suc n) (after_section c s) l (omega arith) passed spares
          (after_section-Ready is_closed n c s (omega arith) p sp r)

    Ready-hit :
        (is_closed : Bool) (n : ℕ) (c : Client F) (later : Env F)
        → later.at_get ≤ stored.expires_at
        → Ready is_closed n c
        → (fetch_checked c q later).0 ≡ ok (clone stored.chart)
    unfolding fetch_checked
    Ready-hit is_closed n c later early r =
        let found = get-held stored max n r.cache later.at_get early r.holds in
        let hit : (get r.cache (key_of q) later.at_get).1 ≡ some (clone stored.chart) =
          subst (λ k. (get r.cache k later.at_get).1 ≡ some (clone stored.chart)) key_is found in
        ground (arith, r.on, hit)

  module _ (c : Client F) (q : Request) (env : Env F) (cache : Cache F) (candles : List (Candle F))
      (ttl : ℤ) (h : Filled c q env cache candles ttl) where
    -- The entry that the Fetch puts.
    abbrev entry : Item F
    entry = record {
      key = key_of q;
      chart = answer q candles env;
      expires_at = env.at_put + pos_part ttl;
    }

    filled-Ready :
        (normal : IsNormal q)
        → Ready q normal entry cache.max refl c.is_closed 0 (filled c q env cache candles ttl)
    filled-Ready normal =
        let s = (get-Step cache (key_of q) env.at_get h.valid).0 in
        let before_put = (get cache (key_of q) env.at_get).0 in
        record {
          closed_is = refl;
          cache = put before_put (key_of q) (some (answer q candles env)) ttl env.at_put;
          on = refl;
          holds =
              subst
                (λ m.
                  Holds entry m 0
                    (put before_put (key_of q) (some (answer q candles env)) ttl env.at_put))
                s.same_max
                (put-held entry before_put (answer q candles env) ttl env.at_put s.valid
                  (omega (arith, s.same_max, h.room)) h.lasts refl);
        }

    -- A Fetch that misses the cache and gets candles answers with them. After any sections of other
    -- calls, in any order and fewer than the cache has room for, a Fetch of the same request, however
    -- it is spelled, answers with the same data marked as cached, without the network, if the TTL of
    -- the resolution is not over. The cache is enabled and has room, and its TTL for the resolution is
    -- positive. None of the sections is of Close or puts an answer for the same request, their
    -- requests have passed the checks, and none looks for the same request after that time.
    pub fetch-after-fetch :
        (s r s' r' : Bytes) (b b' : ℤ) (sections : List (Section F)) (later : Env F)
        → check c s r b ≡ ok q
        → check c s' r' b' ≡ ok q
        → All HasPassed sections
        → All (Spares q (env.at_put + pos_part ttl)) sections
        → length sections < cache.max
        → later.at_get ≤ env.at_put + pos_part ttl
        → ((fetch c s r b env).0 ≡ ok (answer q candles env))
          × ((fetch (after (fetch c s r b env).1 sections) s' r' b' later).0
              ≡ ok (clone (answer q candles env)))
    unfolding fetch
    fetch-after-fetch s r s' r' b b' sections later e e' passed spares few early =
        let normal = (check-IsNormal c s r b {q = q} e).0 in
        let once : fetch c s r b env
            ≡ (ok (answer q candles env), filled c q env cache candles ttl) =
          ground (arith, e, first c q env cache candles ttl h) in
        let filled_c = filled c q env cache candles ttl in
        let (m, ready) =
          after-Ready q normal entry cache.max refl c.is_closed 0 filled_c sections (omega arith)
            passed spares (filled-Ready normal) in
        let c' = after filled_c sections in
        let hit = Ready-hit q normal entry cache.max refl c.is_closed m c' later early ready in
        let again : check c' s' r' b' ≡ ok q = check-same c c' s' r' b' ready.closed_is ∙ e' in
        let second : (fetch c' s' r' b' later).0 ≡ ok (clone (answer q candles env)) =
          ground (arith, again, hit) in
        (ap (λ p. p.0) once, ap (λ p. (fetch (after p.1 sections) s' r' b' later).0) once ∙ second)
