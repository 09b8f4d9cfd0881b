-- ===== src/Client/Sources.antt =====
-- Where the chart that a Fetch returns is from, with the cache and after any history of the client.
use mathlib.Core.Path.{subst}
use tradingview_go.Common.{
  ℕ, ◌≤◌, ◌≡◌, refl, sym, ap, ◌∙◌, ◌⊎◌, inl, inr, true, false, Option, some, List, [], ◌∷◌, arith,
  ℤ, All, Option-cases,
}
use tradingview_go.Text.{Bytes}
use tradingview_go.Types.{Candle, ChartData}
use tradingview_go.Errors.{ok, Result-cases}
use tradingview_go.Config.{Config, with_defaults}
use tradingview_go.Cache.{Cache, clone, get}
use tradingview_go.Cache.Kept.{get-item}
use tradingview_go.Conn.Answers.{AnyOf}
use tradingview_go.Client.{
  Client, Request, Env, new_client, check, key_of, fetch, fetch_checked, fetch_miss,
}
use tradingview_go.Client.Checks.{IsNormal, check-IsNormal}
use tradingview_go.Client.Origin.{fetch_miss-answer}
use tradingview_go.Client.Reuse.{answer}
use tradingview_go.Client.History.{Section, after, HasPassed}
use tradingview_go.Client.Entries.{Remembered, Stored, Sound, after-Sound, new_client-Sound}
use tradingview_go.Client.Keys.{key_of-injective}

module _ {F : Type 0} where
  module _ (ttls : Option (List (Bytes × ℤ))) (Was : Section F → Type 0) where
    clone-Remembered :
        (q : Request) (chart : ChartData F) (expires_at : ℕ)
        → Remembered ttls Was q chart expires_at
        → Remembered ttls Was q (clone chart) expires_at
    clone-Remembered q chart expires_at r = record {
      env = r.env;
      was = r.was;
      network = r.network;
      symbol_is = r.symbol_is;
      resolution_is = r.resolution_is;
      fetched_is = r.fetched_is;
      table = r.table;
      configured = r.configured;
      ttl = r.ttl;
      listed = r.listed;
      expires = r.expires;
    }

    -- What a get of the request's key returns was remembered for that request.
    get-Remembered :
        (c : Client F) (cache : Cache F) (q : Request) (now : ℕ) {chart : ChartData F}
        → Sound ttls Was c
        → IsNormal q
        → c.cache ≡ some cache
        → (get cache (key_of q) now).1 ≡ some chart
        → (chart.cached ≡ true)
          × ((expires_at : ℕ) × (now ≤ expires_at) × Remembered ttls Was q chart expires_at)
    get-Remembered c cache q now {chart} h normal on hit =
        let (i, stored, key_is, live, is) =
          get-item (Stored ttls Was) cache (key_of q) now (h.kept cache on) hit in
        let same =
          key_of-injective stored.request q stored.normal normal (sym stored.key_is ∙ key_is) in
        let r = subst (λ p. Remembered ttls Was p i.chart i.expires_at) same stored.remembered in
        (
          ap (λ d. d.cached) is,
          (
            i.expires_at,
            live,
            subst (λ d. Remembered ttls Was q d i.expires_at) (sym is)
                (clone-Remembered q i.chart i.expires_at r),
          ),
        )

    -- Where the chart of a Fetch is from: this Fetch or an earlier section.
    abbrev pub From : Request → Env F → ChartData F → Type 0
    From q env chart =
        ((chart.cached ≡ false)
          × ((candles : List (Candle F)) × (env.network q ≡ ok candles)
              × (chart ≡ answer q candles env)))
        ⊎ ((chart.cached ≡ true)
            × ((expires_at : ℕ) × (env.at_get ≤ expires_at)
                × Remembered ttls Was q chart expires_at))

    fetch_checked-From :
        (c : Client F) (q : Request) (env : Env F) {chart : ChartData F}
        → Sound ttls Was c
        → IsNormal q
        → (fetch_checked c q env).0 ≡ ok chart
        → From q env chart
    unfolding fetch_checked
    fetch_checked-From c q env {chart} h normal e = elim (Option-cases c.cache) [
      | inl off ↦ fresh c (ground arith)
      | inr (cache, on) ↦ elim (Option-cases (get cache (key_of q) env.at_get).1) [
        | inl missed ↦
            fresh (record c { cache = some (get cache (key_of q) env.at_get).0 }) (ground arith)
        | inr (hit, found) ↦
            inr (get-Remembered c cache q env.at_get {chart = chart} h normal on (ground arith))
      ]
    ]
      where
        fresh : (c' : Client F) → (fetch_miss c' q env).0 ≡ ok chart → From q env chart
        fresh c' answered =
            let (candles, got, is) = fetch_miss-answer c' q env {chart = chart} answered in
            inl (ap (λ d. d.cached) is, (candles, got, is))

  -- The section is one of these.
  abbrev pub Among : List (Section F) → Section F → Type 0
  Among l s = AnyOf (λ t. t ≡ s) l

  All-Among :
      (P : Section F → Type 0) (l : List (Section F))
      → All HasPassed l
      → ((s : Section F) → Among l s → P s)
      → All (λ s. P s × HasPassed s) l
  All-Among P [] passed h = tt
  All-Among P (s ∷ l) passed h =
      ((h s (inl refl), passed.0), All-Among P l passed.1 (λ t there. h t (inr there)))

  -- After any sections of Fetch calls and of Close on a new client, in any order, a chart that Fetch
  -- returns is for the request that passed the checks. Either it is not marked as cached, and shows
  -- what the network gave in this call. Or it is marked as cached, and shows what the network gave for
  -- the same symbol, resolution and bars in one of the earlier sections, with the time of that answer,
  -- and the configured TTL of the resolution is not over since its put. The requests of the sections
  -- have passed the checks.
  pub fetch-From :
      (cfg : Config) (sections : List (Section F)) (symbol resolution : Bytes) (bars : ℤ)
      (env : Env F) {chart : ChartData F}
      → All HasPassed sections
      → (fetch (after (new_client cfg) sections) symbol resolution bars env).0 ≡ ok chart
      → (q : Request) × (check (after (new_client cfg) sections) symbol resolution bars ≡ ok q)
        × From (with_defaults cfg).cache_ttls (Among sections) q env chart
  unfolding fetch
  fetch-From cfg sections symbol resolution bars env {chart} passed e =
      let c = after (new_client cfg) sections in
      elim (Result-cases (check c symbol resolution bars)) [
        | inr (x, refused) ↦ absurd (ground arith)
        | inl (q, checked) ↦
            let sound =
              after-Sound (with_defaults cfg).cache_ttls (Among sections) (new_client cfg) sections
                (All-Among (Among sections) sections passed (λ s there. there))
                (new_client-Sound cfg (Among sections)) in
            (
              q,
              checked,
              fetch_checked-From (with_defaults cfg).cache_ttls (Among sections) c q env
                  {chart = chart} sound (check-IsNormal c symbol resolution bars {q = q} checked).0
                  (ground arith),
            )
      ]
