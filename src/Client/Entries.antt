-- ===== src/Client/Entries.antt =====
-- What the cache of a client holds after any sections of Fetch and Close: answers of the network, each
-- under the key of its request.
use mathlib.Core.Path.{subst}
use tradingview_go.Common.{
  ℕ, ◌+◌, ◌≡◌, refl, sym, ◌∙◌, ◌⊎◌, inl, inr, true, Option, some, List, [], ◌∷◌, arith, ℤ, pos_part,
  All, Bool-cases, Option-cases,
}
use tradingview_go.Text.{Bytes}
use tradingview_go.Types.{Candle, ChartData}
use tradingview_go.Errors.{ok, Result-cases}
use tradingview_go.Config.{Config, with_defaults}
use tradingview_go.Symbols.{lookup}
use tradingview_go.Cache.{Cache, get, put}
use tradingview_go.Cache.Spec.{Item}
use tradingview_go.Cache.Kept.{Kept, get-Kept, put-Kept, new_cache-Kept}
use tradingview_go.Client.{Client, Request, Env, new_client, close_client, key_of, fetch_miss}
use tradingview_go.Client.Checks.{IsNormal}
use tradingview_go.Client.Reuse.{answer}
use tradingview_go.Client.History.{Section, looks, answers, closes, after_section, after, HasPassed}

module _ {F : Type 0} where
  -- The chart shows what the network gave for the request in one of the sections, and is good for the
  -- TTL of its resolution after that.
  pub record Remembered (ttls : Option (List (Bytes × ℤ))) (Was : Section F → Type 0) (q : Request)
      (chart : ChartData F) (expires_at : ℕ) : Type 0 where
    pub env : Env F
    pub was : Was (answers q env)
    pub network : env.network q ≡ ok chart.candles
    pub symbol_is : chart.symbol ≡ q.symbol
    pub resolution_is : chart.resolution ≡ q.resolution
    pub fetched_is : chart.fetched_at ≡ env.fetched
    pub table : List (Bytes × ℤ)
    pub configured : ttls ≡ some table
    pub ttl : ℤ
    pub listed : lookup q.resolution table ≡ some ttl
    pub expires : expires_at ≡ env.at_put + pos_part ttl

  -- What every entry of the cache is.
  pub record Stored (ttls : Option (List (Bytes × ℤ))) (Was : Section F → Type 0) (i : Item F)
      : Type 0 where
    pub request : Request
    pub normal : IsNormal request
    pub key_is : i.key ≡ key_of request
    pub remembered : Remembered ttls Was request i.chart i.expires_at

  -- Fetch after its miss leaves the client, or puts the network's answer for the TTL of the resolution.
  pub fetch_miss-puts :
      (c : Client F) (q : Request) (env : Env F)
      → ((fetch_miss c q env).1 ≡ c)
        ⊎ ((cache : Cache F) × (candles : List (Candle F)) × (table : List (Bytes × ℤ)) × (ttl : ℤ)
            × (c.cache ≡ some cache)
            × (env.network q ≡ ok candles)
            × (c.cfg.cache_ttls ≡ some table)
            × (lookup q.resolution table ≡ some ttl)
            × ((fetch_miss c q env).1 ≡ record c {
              cache = some (put cache (key_of q) (some (answer q candles env)) ttl env.at_put);
            }))
  unfolding fetch_miss
  fetch_miss-puts c q env = elim (Result-cases (env.network q)) [
    | inr (x, failed) ↦ inl (ground arith)
    | inl (candles, got) ↦ elim (Option-cases c.cache) [
      | inl off ↦ inl (ground arith)
      | inr (cache, on) ↦ elim (Option-cases c.cfg.cache_ttls) [
        | inl unset ↦ inl (ground arith)
        | inr (table, set) ↦ elim (Option-cases (lookup q.resolution table)) [
          | inl absent ↦ inl (ground arith)
          | inr (ttl, listed) ↦ inr (cache, candles, table, ttl, on, got, set, listed, ground arith)
        ]
      ]
    ]
  ]

  module _ (ttls : Option (List (Bytes × ℤ))) (Was : Section F → Type 0) where
    -- A client with its TTLs and, if it has a cache, with such entries only.
    pub record Sound (c : Client F) : Type 0 where
      pub ttls_are : c.cfg.cache_ttls ≡ ttls
      pub kept : (cache : Cache F) → c.cache ≡ some cache → Kept (Stored ttls Was) cache

    -- A cache in place of the client's.
    with_cache-Sound :
        (c : Client F) (cache : Cache F)
        → Sound c
        → Kept (Stored ttls Was) cache
        → Sound (record c { cache = some cache })
    with_cache-Sound c cache h kept = record {
      ttls_are = h.ttls_are;
      kept = λ other same. subst (Kept (Stored ttls Was)) (ground arith) kept;
    }

    after_section-Sound :
        (c : Client F) (s : Section F) → Was s → HasPassed s → Sound c → Sound (after_section c s)
    unfolding after_section
    after_section-Sound c (looks q now) was passed h = elim (Option-cases c.cache) [
      | inl off ↦
          let same : after_section c (looks q now) ≡ c = ground arith in subst Sound (sym same) h
      | inr (cache, on) ↦
          let cache' = (get cache (key_of q) now).0 in
          let next : after_section c (looks q now) ≡ record c { cache = some cache' } =
            ground arith in
          subst Sound (sym next) (
            with_cache-Sound c cache' h
              (get-Kept (Stored ttls Was) cache (key_of q) now (h.kept cache on)))
    ]
    after_section-Sound c (answers q env) was passed h = elim (fetch_miss-puts c q env) [
      | inl same ↦ subst Sound (sym same) h
      | inr (cache, candles, table, ttl, on, got, set, listed, put_it) ↦
          let new : Stored ttls Was (record {
            key = key_of q;
            chart = answer q candles env;
            expires_at = env.at_put + pos_part ttl;
          }) =
            record {
              request = q;
              normal = passed;
              key_is = refl;
              remembered = record {
                env = env;
                was = was;
                network = got;
                symbol_is = refl;
                resolution_is = refl;
                fetched_is = refl;
                table = table;
                configured = sym h.ttls_are ∙ set;
                ttl = ttl;
                listed = listed;
                expires = refl;
              };
            } in
          subst Sound (sym put_it) (
            with_cache-Sound c (put cache (key_of q) (some (answer q candles env)) ttl env.at_put) h
              (put-Kept (Stored ttls Was) cache (key_of q) (answer q candles env) ttl env.at_put
                (h.kept cache on) new))
    ]
    after_section-Sound c closes was passed h = elim (Bool-cases c.is_closed) [
      | inl closed ↦
          let same : (close_client c).0 ≡ c = unfold close_client in ground arith in
          subst Sound (sym same) h
      | inr opened ↦
          let next : (close_client c).0 ≡ record c { is_closed = true } =
            unfold close_client in ground arith in
          subst Sound (sym next) (record { ttls_are = h.ttls_are; kept = h.kept })
    ]

    pub after-Sound :
        (c : Client F) (l : List (Section F))
        → All (λ s. Was s × HasPassed s) l
        → Sound c
        → Sound (after c l)
    unfolding after
    after-Sound c [] h sound = sound
    after-Sound c (s ∷ l) h sound =
        after-Sound (after_section c s) l h.1 (after_section-Sound c s h.0.0 h.0.1 sound)

  pub new_client-Sound :
      (cfg : Config) (Was : Section F → Type 0)
      → Sound (with_defaults cfg).cache_ttls Was (new_client cfg)
  unfolding new_client
  new_client-Sound cfg Was = record {
    ttls_are = refl;
    kept = λ cache on. elim (Bool-cases (with_defaults cfg).enable_cache) [
      | inl enabled ↦ subst (Kept (Stored (with_defaults cfg).cache_ttls Was)) (ground arith) (
          new_cache-Kept (Stored (with_defaults cfg).cache_ttls Was)
            (pos_part (with_defaults cfg).cache_size))
      | inr disabled ↦ absurd (ground arith)
    ];
  }
