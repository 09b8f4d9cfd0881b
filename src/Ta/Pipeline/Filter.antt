-- ===== src/Ta/Pipeline/Filter.antt =====
-- EnrichMulti with a filter that names no indicator.
use tradingview_go.Common.{◌≡◌, refl, ap, Bool, false, List, [], ◌∷◌, map}
use tradingview_go.Text.{Bytes, trim_space}
use tradingview_go.Types.{MultiChartData, ChartData}
use tradingview_go.Symbols.{member}
use tradingview_go.Ta.{
  Enricher, filter_pipeline, keep_wanted, default_pipeline, enricher_name, indicator_names,
  to_lower,
}
use tradingview_go.Ta.Float.{Float, num}
use tradingview_go.Ta.Eval.{done, ◌>>=◌}
use tradingview_go.Ta.Library.{Library}
use tradingview_go.Ta.Pipeline.{
  TimeframeAnnotations, ranks_below, enrich_slabs, enrich_timeframe, nil_if_empty, enrich_multi,
}

-- No enricher of the pipeline has one of these names.
abbrev NoneNamed : {F : Type 0} → List Bytes → List (Enricher F) → Type 0
NoneNamed want [] = Unit
NoneNamed want (e ∷ l) = (member (enricher_name e) want ≡ false) × NoneNamed want l

-- None of these names is one of those names.
abbrev pub Apart : List Bytes → List Bytes → Type 0
Apart want [] = Unit
Apart want (n ∷ names) = (member n want ≡ false) × Apart want names

NoneNamed-of_Apart :
    {F : Type 0} (want : List Bytes) (l : List (Enricher F))
    → Apart want (map enricher_name l)
    → NoneNamed want l
NoneNamed-of_Apart want [] h = tt
NoneNamed-of_Apart want (e ∷ l) (h, rest) = (h, NoneNamed-of_Apart want l rest)

keep_wanted-nil :
    {F : Type 0} (want : List Bytes) (l : List (Enricher F))
    → NoneNamed want l
    → keep_wanted want l ≡ []
unfolding keep_wanted
keep_wanted-nil want [] h = refl
keep_wanted-nil want (e ∷ l) (h, rest) = rw h (keep_wanted-nil want l rest)

module _ {F Extreme Line : Type 0} ⦃f : Float F⦄ (lib : Library F Extreme Line) where
  enrich_slabs-nil :
      (slabs : List (Bytes × ChartData F))
      → enrich_slabs lib (nil_if_empty []) slabs
        ≡ enrich_slabs lib (nil_if_empty (default_pipeline (num 2) (num 3))) slabs
  unfolding enrich_slabs enrich_timeframe nil_if_empty default_pipeline
  enrich_slabs-nil [] = refl
  enrich_slabs-nil ((tf, slab) ∷ slabs) = rw (enrich_slabs-nil slabs)

  -- A filter whose names are no indicator's, with at least one name, is no filter: EnrichMulti runs
  -- all indicators.
  pub enrich_multi-unknown :
      (sort : (TimeframeAnnotations → TimeframeAnnotations → Bool)
        → List TimeframeAnnotations
        → List TimeframeAnnotations)
      (multi : MultiChartData F) (name : Bytes) (only : List Bytes)
      → Apart
          (map (λ n. to_lower (trim_space n)) (name ∷ only))
          (indicator_names {F = F} (num 2) (num 3))
      → enrich_multi lib sort multi (name ∷ only) ≡ enrich_multi lib sort multi []
  unfolding enrich_multi filter_pipeline indicator_names
  enrich_multi-unknown sort multi name only h =
      let want = map (λ n. to_lower (trim_space n)) (name ∷ only) in
      let all = default_pipeline {F = F} (num 2) (num 3) in
      let nothing = keep_wanted-nil want all (NoneNamed-of_Apart want all h) in
      rw nothing
        (ap (λ g. g >>= λ groups. done (sort ranks_below groups)) (enrich_slabs-nil multi.slabs))
