-- ===== src/Cache/Run.antt =====
-- Whole histories of calls: the cache answers as its specification does.
use tradingview_go.Common.{ℕ, ◌≤◌, ◌≡◌, refl, ◌∙◌, Option, List, [], ◌∷◌, arith, length, ℤ}
use tradingview_go.Text.{Bytes}
use tradingview_go.Types.{ChartData}
use tradingview_go.Cache.{Cache, get, put, new_cache}
use tradingview_go.Cache.Spec.{Item, items, spec_get, spec_put}
use tradingview_go.Cache.Refine.{IsValid, new_cache-IsValid, Step, get-Step, put-Step}
use mathlib.Core.Path.{ap₂}

-- A call of the cache, with its clock reading.
pub data Call (F : Type 0) : Type 0 where
  gets : Bytes → ℕ → Call F
  puts : Bytes → Option (ChartData F) → ℤ → ℕ → Call F

module _ {F : Type 0} where
  -- What the gets among the calls return, on the cache and on the specification.
  unfoldable pub run : Cache F → List (Call F) → Cache F × List (Option (ChartData F))
  run c [] = (c, [])
  run c (gets k now ∷ calls) =
      let (c', hit) = get c k now in let (r, hits) = run c' calls in (r, hit ∷ hits)
  run c (puts k d ttl now ∷ calls) = run (put c k d ttl now) calls

  unfoldable pub spec_run :
      ℕ → List (Item F) → List (Call F) → List (Item F) × List (Option (ChartData F))
  spec_run max l [] = (l, [])
  spec_run max l (gets k now ∷ calls) =
      let (l', hit) = spec_get l k now in let (r, hits) = spec_run max l' calls in (r, hit ∷ hits)
  spec_run max l (puts k d ttl now ∷ calls) = spec_run max (spec_put max l k d ttl now) calls

  follow :
      {c c' r : Cache F} {l : List (Item F)} (calls : List (Call F))
      → Step c c' l
      → Step c' r (spec_run c'.max (items c') calls).0
      → Step c r (spec_run c.max l calls).0
  follow calls s t = record {
    valid = t.valid;
    same_max = t.same_max ∙ s.same_max;
    refined = t.refined ∙ ap₂ (λ m l. (spec_run m l calls).0) s.same_max s.refined;
  }

  run-Step :
      (c : Cache F) (calls : List (Call F))
      → IsValid c
      → Step c (run c calls).0 (spec_run c.max (items c) calls).0
        × ((run c calls).1 ≡ (spec_run c.max (items c) calls).1)
  unfolding run spec_run
  run-Step c [] v = (record { valid = v; same_max = refl; refined = refl }, refl)
  run-Step c (gets k now ∷ calls) v =
      let (s, hit) = get-Step c k now v in
      let (t, hits) = run-Step (get c k now).0 calls s.valid in
      (
        follow calls s t,
        ap₂ (λ h hs. h ∷ hs) hit (hits ∙ ap₂ (λ m l. (spec_run m l calls).1) s.same_max s.refined),
      )
  run-Step c (puts k d ttl now ∷ calls) v =
      let s = put-Step c k d ttl now v in
      let (t, hits) = run-Step (put c k d ttl now) calls s.valid in
      (follow calls s t, hits ∙ ap₂ (λ m l. (spec_run m l calls).1) s.same_max s.refined)

  -- From an empty cache, any calls at any clock readings get the answers of the specification; after
  -- them the entries are the specification's, the map and the list agree, and the list is no longer
  -- than the size.
  pub run-new_cache :
      (size : ℕ) (calls : List (Call F))
      → ((run (new_cache size) calls).1 ≡ (spec_run size [] calls).1)
        × (items (run (new_cache size) calls).0 ≡ (spec_run size [] calls).0)
        × IsValid (run (new_cache size) calls).0
        × (length (run (new_cache size) calls).0.ll ≤ size)
  unfolding new_cache
  run-new_cache size calls =
      let (s, hits) = run-Step (new_cache size) calls (new_cache-IsValid size) in
      (hits, s.refined, s.valid, omega (arith, s.valid.bounded, s.same_max))
