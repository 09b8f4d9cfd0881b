-- ===== src/Ta/Pipeline/Order.antt =====
-- EnrichMulti's groups do not depend on the order of the range over the map of slabs.
use mathlib.Core.Path.{ap₂, subst}
use mathlib.Core.Logic.{∥∥₁_elim}
use mathlib.Core.Logic.Or
use mathlib.Core.List.{
  Mem, Perm, Pairwise, mem-cons, mem-cons_self, mem-map, rel_of_Pairwise-cons, map-map,
}
use mathlib.Core.List.Pairwise
use mathlib.Core.List.Perm
use native.Mathlib.Decide.{ℕ_discrete}
use native.Mathlib.Bridge.{le_prop}
use tradingview_go.Common.{
  ℕ, ◌≤◌, ◌≡◌, refl, ◌∙◌, sym, ap, Bool, true, false, Option, List, [], ◌∷◌, map, arith, length,
}
use tradingview_go.Text.{Bytes}
use tradingview_go.Types.{ChartData, MultiChartData}
use tradingview_go.Ta.{Enricher, filter_pipeline, default_pipeline}
use tradingview_go.Ta.Float.{Float, num}
use tradingview_go.Ta.Eval.{Eval, done, panics, no_fuel, ◌>>=◌}
use tradingview_go.Ta.Library.{Library, Annotation}
use tradingview_go.Ta.Pipeline.{
  TimeframeAnnotations, ranks_below, tf_rank, enrich_timeframe, enrich_slabs, nil_if_empty,
  enrich_multi,
}
use tradingview_go.Ta.Pipeline.Durations.{minutes, tf_rank-minutes}
use tradingview_go.Ta.Pipeline.Safe.{Returns}
use tradingview_go.Ta.Pipeline.Total.{
  AllSound, enrich_timeframe-Returns, default_pipeline-AllSound, filter_pipeline-AllSound,
}

Annotation-discrete : Discrete Annotation
Annotation-discrete = hlevel ℕ_discrete

TimeframeAnnotations-set : IsSet TimeframeAnnotations
TimeframeAnnotations-set = hlevel (Annotation-discrete, ℕ_discrete)

abbrev rank : TimeframeAnnotations → ℕ
rank g = tf_rank g.timeframe

-- In the order that sort.Slice establishes: no group ranks below an earlier one.
abbrev pub IsAscending : List TimeframeAnnotations → Type 0
IsAscending = Pairwise λ a b. ranks_below b a ≡ false

-- sort.Slice with the test of EnrichMulti: a permutation in that order.
abbrev pub Sorts :
    ((TimeframeAnnotations → TimeframeAnnotations → Bool)
      → List TimeframeAnnotations
      → List TimeframeAnnotations)
    → Type 0
Sorts sort =
    (l : List TimeframeAnnotations) → Perm (sort ranks_below l) l × IsAscending (sort ranks_below l)

-- Groups of one rank are one group.
abbrev Ranked : List TimeframeAnnotations → Type 0
Ranked l = (a b : TimeframeAnnotations) → Mem a l → Mem b l → rank a ≡ rank b → a ≡ b

-- Shorter timeframes come first.
abbrev pub IsByLength : List TimeframeAnnotations → Type 0
IsByLength = Pairwise λ a b. minutes a.timeframe ≤ minutes b.timeframe

IsAscending-IsByLength : (l : List TimeframeAnnotations) → IsAscending l → IsByLength l
IsAscending-IsByLength l h =
    Pairwise.imp {R = λ a b. ranks_below b a ≡ false}
      {S = λ a b. minutes a.timeframe ≤ minutes b.timeframe}
      (λ a b up. tf_rank-minutes a.timeframe b.timeframe (ground arith)) h

rank-le :
    {a b : TimeframeAnnotations} {l : List TimeframeAnnotations}
    → IsAscending (a ∷ l)
    → Mem b (a ∷ l)
    → rank a ≤ rank b
rank-le {a} {b} s m =
    Or.elim le_prop (mem-cons.0 m) (λ e. rw e (ground arith))
      λ later. let h = rel_of_Pairwise-cons s later in ground arith

IsAscending-unique :
    (l r : List TimeframeAnnotations) → Ranked l → IsAscending l → IsAscending r → Perm l r → l ≡ r
IsAscending-unique [] r inj sl sr p = Perm.nil-eq p
IsAscending-unique (a ∷ l) [] inj sl sr p = Perm.eq-nil p
IsAscending-unique (a ∷ l) (b ∷ r) inj sl sr p =
    let b_in = (Perm.mem_iff p).1 mem-cons_self in
    let a_in = (Perm.mem_iff p).0 mem-cons_self in
    let up = rank-le sl b_in in
    let down = rank-le sr a_in in
    let heads : a ≡ b = inj a b mem-cons_self b_in (omega arith) in
    let tails = Perm.cons_inv (Perm.trans p (Perm.symm (Perm.cons' heads Perm.rfl))) in
    let rest =
      IsAscending-unique l r
        (λ x y mx my. inj x y (mem-cons.1 (Or.inr mx)) (mem-cons.1 (Or.inr my)))
        (Pairwise.of_cons sl) (Pairwise.of_cons sr) tails in
    ap₂ ◌∷◌ heads rest

module _ {F Extreme Line : Type 0} ⦃f : Float F⦄ (lib : Library F Extreme Line)
    (z : f.eq (f.lit 0 0) (f.lit 0 0) ≡ true) where
  result : Eval (List Annotation) → List Annotation
  result (done a) = a
  result panics = []
  result no_fuel = []

  result-done : (m : Eval (List Annotation)) → Returns m → m ≡ done (result m)
  unfolding result
  result-done (done a) h = refl
  result-done panics h = elim h [ ]
  result-done no_fuel h = elim h [ ]

  -- The group of a slab.
  group : Option (List (Enricher F)) → Bytes × ChartData F → TimeframeAnnotations
  group pipeline (tf, slab) = record {
    timeframe = tf;
    bars = length slab.candles;
    annotations = result (enrich_timeframe lib slab.candles tf pipeline);
  }

  enrich_slabs-map :
      (l : List (Enricher F)) (slabs : List (Bytes × ChartData F))
      → AllSound l
      → enrich_slabs lib (nil_if_empty l) slabs ≡ done (map (group (nil_if_empty l)) slabs)
  unfolding enrich_slabs group
  enrich_slabs-map l [] h = refl
  enrich_slabs-map l ((tf, slab) ∷ slabs) h =
      let this =
        result-done (enrich_timeframe lib slab.candles tf (nil_if_empty l))
          (enrich_timeframe-Returns lib z slab.candles tf l h) in
      let front = λ (m : Eval (List Annotation)). m >>= λ a.
      enrich_slabs lib (nil_if_empty l) slabs >>= λ rest.
      done (record { timeframe = tf; bars = length slab.candles; annotations = a } ∷ rest) in
      let back = λ (m : Eval (List TimeframeAnnotations)).
        m >>= λ rest. done (group (nil_if_empty l) (tf, slab) ∷ rest) in
      ap front this ∙ ap back (enrich_slabs-map l slabs h)

  -- No two slabs are of timeframes of one rank.
  abbrev pub IsRanked : List (Bytes × ChartData F) → Type 0
  IsRanked slabs =
      (s t : Bytes × ChartData F) → Mem s slabs → Mem t slabs → tf_rank s.0 ≡ tf_rank t.0 → s ≡ t

  groups-Ranked :
      (pipeline : Option (List (Enricher F))) (slabs : List (Bytes × ChartData F))
      → IsRanked slabs
      → Ranked (map (group pipeline) slabs)
  unfolding group
  groups-Ranked pipeline slabs h a b ma mb e =
      ∥∥₁_elim (mem-map.0 ma) (TimeframeAnnotations-set a b) λ (s, ms, es).
        ∥∥₁_elim (mem-map.0 mb) (TimeframeAnnotations-set a b) λ (t, mt, et).
          sym es ∙ ap (group pipeline) (h s t ms mt (ap rank es ∙ e ∙ sym (ap rank et))) ∙ et

  group-timeframe :
      (pipeline : Option (List (Enricher F))) (slabs : List (Bytes × ChartData F))
      → map (λ g. g.timeframe) (map (group pipeline) slabs) ≡ map (λ s. s.0) slabs
  unfolding group
  group-timeframe pipeline slabs = map-map (λ g. g.timeframe) (group pipeline) slabs

  -- EnrichMulti returns, and its groups are those of the slabs.
  pub enrich_multi-timeframes :
      (sort : (TimeframeAnnotations → TimeframeAnnotations → Bool)
        → List TimeframeAnnotations
        → List TimeframeAnnotations)
      (multi : MultiChartData F) (only : List Bytes)
      → Sorts sort
      → (groups : List TimeframeAnnotations) × (enrich_multi lib sort multi only ≡ done groups)
        × Perm (map (λ g. g.timeframe) groups) (map (λ s. s.0) multi.slabs)
  unfolding enrich_multi
  enrich_multi-timeframes sort multi only sorts =
      let l = filter_pipeline (default_pipeline (num 2) (num 3)) only in
      let sound =
        filter_pipeline-AllSound (default_pipeline (num 2) (num 3)) only
          (default_pipeline-AllSound (num 2) (num 3)) in
      let groups = map (group (nil_if_empty l)) multi.slabs in
      let run = λ (m : Eval (List TimeframeAnnotations)). m >>= λ g. done (sort ranks_below g) in
      (
        sort ranks_below groups,
        ap run (enrich_slabs-map l multi.slabs sound),
        subst (λ l. Perm (map (λ g. g.timeframe) (sort ranks_below groups)) l)
            (group-timeframe (nil_if_empty l) multi.slabs)
            (Perm.map (λ g. g.timeframe) (sorts groups).0),
      )

  -- EnrichMulti gives one group for each slab, shorter timeframes first and those that tfOrder does not
  -- have last, and the same groups in the same order whatever the order in which Go ranges over the map
  -- of slabs, if no two slabs have one rank. The constant 0 equals itself.
  pub enrich_multi-perm :
      (sort : (TimeframeAnnotations → TimeframeAnnotations → Bool)
        → List TimeframeAnnotations
        → List TimeframeAnnotations)
      (multi multi' : MultiChartData F) (only : List Bytes)
      → Sorts sort
      → Perm multi.slabs multi'.slabs
      → IsRanked multi.slabs
      → (groups : List TimeframeAnnotations) × (enrich_multi lib sort multi only ≡ done groups)
        × (enrich_multi lib sort multi' only ≡ done groups)
        × IsByLength groups
        × Perm (map (λ g. g.timeframe) groups) (map (λ s. s.0) multi.slabs)
  unfolding enrich_multi
  enrich_multi-perm sort multi multi' only sorts p ranked =
      let l = filter_pipeline (default_pipeline (num 2) (num 3)) only in
      let sound =
        filter_pipeline-AllSound (default_pipeline (num 2) (num 3)) only
          (default_pipeline-AllSound (num 2) (num 3)) in
      let groups = map (group (nil_if_empty l)) multi.slabs in
      let groups' = map (group (nil_if_empty l)) multi'.slabs in
      let (perm, ascending) = sorts groups in
      let (perm', ascending') = sorts groups' in
      let all : Perm (sort ranks_below groups) (sort ranks_below groups') =
        Perm.trans perm (Perm.trans (Perm.map _ p) (Perm.symm perm')) in
      let inj = groups-Ranked (nil_if_empty l) multi.slabs ranked in
      let same =
        IsAscending-unique (sort ranks_below groups) (sort ranks_below groups')
          (λ a b ma mb. inj a b ((Perm.mem_iff perm).0 ma) ((Perm.mem_iff perm).0 mb)) ascending
          ascending' all in
      let run = λ (m : Eval (List TimeframeAnnotations)). m >>= λ g. done (sort ranks_below g) in
      (
        sort ranks_below groups,
        ap run (enrich_slabs-map l multi.slabs sound),
        ap run (enrich_slabs-map l multi'.slabs sound) ∙ ap done (sym same),
        IsAscending-IsByLength (sort ranks_below groups) ascending,
        subst (λ l. Perm (map (λ g. g.timeframe) (sort ranks_below groups)) l)
            (group-timeframe (nil_if_empty l) multi.slabs) (Perm.map (λ g. g.timeframe) perm),
      )
