-- ===== src/Ta/Pipeline/Total.antt =====
-- Compute and EnrichMulti return.
use tradingview_go.Common.{
  ◌≡◌, ◌≢◌, refl, inl, inr, Bool, true, false, none, some, List, [], ◌∷◌, arith, ℤ, pos, length,
  ltb, All, Bool-cases, Option-cases,
}
use tradingview_go.Text.{Bytes, beq, trim_space}
use tradingview_go.Types.{Candle, ChartData, MultiChartData}
use tradingview_go.Symbols.{lookup, member}
use tradingview_go.Ta.{
  Enricher, Params, cases, enricher_for, int_or, periods_or, to_lower, filter_pipeline, keep_wanted,
  default_pipeline, enricher_name,
}
use tradingview_go.Ta.Float.{Float, num, ◌>?◌}
use tradingview_go.Ta.Library.{Library}
use tradingview_go.Ta.Pipeline.{
  TimeframeAnnotations, enrich, enrich_all, enrich_timeframe, enrich_slabs, nil_if_empty,
  enrich_multi, compute, min_bars,
}
use tradingview_go.Ta.Pipeline.Safe.{Returns, IsPositive, IsSound, Returns->>=, enrich-Returns}

int_or-IsPositive : (v d : ℤ) → IsPositive d → IsPositive (int_or v d)
unfolding int_or
int_or-IsPositive v d h = ground arith

periods_or-IsPositive :
    (l d : List ℤ) → All IsPositive l → All IsPositive d → All IsPositive (periods_or l d)
unfolding periods_or
periods_or-IsPositive [] d h k = k
periods_or-IsPositive (n ∷ l) d h k = h

module _ {F : Type 0} where
  abbrev pub AllSound : List (Enricher F) → Type 0
  AllSound = All IsSound

  lookup-IsSound :
      (name : Bytes) (l : List (Bytes × Enricher F)) {e : Enricher F}
      → All (λ c. IsSound c.1) l
      → lookup name l ≡ some e
      → IsSound e
  unfolding lookup
  lookup-IsSound name [] h found = absurd (ground arith)
  lookup-IsSound name ((k, x) ∷ l) {e} (sound, h) found = elim (Bool-cases (beq k name)) [
    | inl here ↦ let same : x ≡ e = ground arith in rw (← same) sound
    | inr other ↦ lookup-IsSound name l h (ground arith)
  ]

  cases-AllSound :
      (two three : F) (above_zero : F → Bool) (p : Params F)
      → All IsPositive p.periods
      → All (λ c. IsSound c.1) (cases two three above_zero p)
  unfolding cases
  cases-AllSound two three above_zero p positive = (
    tt,
    (
      tt,
      (
        periods_or-IsPositive p.periods (pos 20 ∷ pos 50 ∷ pos 200 ∷ []) positive
            (refl, (refl, (refl, tt))),
        (
          tt,
          (
            tt,
            (
              tt,
              (
                tt,
                (
                  tt,
                  (
                    tt,
                    (
                      tt,
                      (
                        tt,
                        (
                          int_or-IsPositive p.lookback (pos 50) refl,
                          (
                            (refl, int_or-IsPositive p.lookback (pos 100) refl),
                            (
                              int_or-IsPositive p.lookback (pos 200) refl,
                              (int_or-IsPositive p.lookback (pos 200) refl, tt),
                            ),
                          ),
                        ),
                      ),
                    ),
                  ),
                ),
              ),
            ),
          ),
        ),
      ),
    ),
  )

  enricher_for-IsSound :
      (two three : F) (above_zero : F → Bool) (name : Bytes) (p : Params F) {e : Enricher F}
      → All IsPositive p.periods
      → enricher_for two three above_zero name p ≡ some e
      → IsSound e
  unfolding enricher_for
  enricher_for-IsSound two three above_zero name p positive found =
      lookup-IsSound name (cases two three above_zero p)
        (cases-AllSound two three above_zero p positive) found

  keep_wanted-AllSound :
      (want : List Bytes) (l : List (Enricher F)) → AllSound l → AllSound (keep_wanted want l)
  unfolding keep_wanted
  keep_wanted-AllSound want [] h = tt
  keep_wanted-AllSound want (e ∷ l) (s, h) =
      let rest = keep_wanted-AllSound want l h in
      elim (Bool-cases (member (enricher_name e) want)) [
        | inl wanted ↦ rw wanted (s, rest)
        | inr not_wanted ↦ rw not_wanted rest
      ]

  pub default_pipeline-AllSound : (two three : F) → AllSound (default_pipeline two three)
  unfolding default_pipeline
  default_pipeline-AllSound two three = (
    tt,
    (
      tt,
      (
        (refl, (refl, (refl, tt))),
        (tt, (tt, (tt, (tt, (tt, (tt, (tt, (tt, (refl, ((refl, refl), (refl, (refl, tt)))))))))))),
      ),
    ),
  )

  pub filter_pipeline-AllSound :
      (l : List (Enricher F)) (only : List Bytes) → AllSound l → AllSound (filter_pipeline l only)
  unfolding filter_pipeline
  filter_pipeline-AllSound l [] h = h
  filter_pipeline-AllSound l (n ∷ only) h = keep_wanted-AllSound _ l h

module _ {F Extreme Line : Type 0} ⦃f : Float F⦄ (lib : Library F Extreme Line)
    (z : f.eq (f.lit 0 0) (f.lit 0 0) ≡ true) where
  enrich_all-Returns :
      (l : List (Enricher F)) (c : List (Candle F)) (tf : Bytes)
      → c ≢ []
      → AllSound l
      → Returns (enrich_all lib l c tf)
  unfolding enrich_all
  enrich_all-Returns [] c tf ne h = tt
  enrich_all-Returns (e ∷ l) c tf ne (s, h) =
      Returns->>= (enrich lib e c tf) _ (enrich-Returns lib c tf ne e z s)
        λ a. Returns->>= (enrich_all lib l c tf) _ (enrich_all-Returns l c tf ne h) λ b. tt

  enough : (c : List (Candle F)) → ltb (length c) min_bars ≡ false → c ≢ []
  enough [] h e = ground arith
  enough (b ∷ c) h e = ground arith

  pub enrich_timeframe-Returns :
      (c : List (Candle F)) (tf : Bytes) (l : List (Enricher F))
      → AllSound l
      → Returns (enrich_timeframe lib c tf (nil_if_empty l))
  unfolding enrich_timeframe nil_if_empty
  enrich_timeframe-Returns c tf l h = elim (Bool-cases (ltb (length c) min_bars)) [
    | inl few ↦ rw few tt
    | inr many ↦ rw many (by_pipeline l h (enough c many))
  ]
    where
      by_pipeline :
          (l : List (Enricher F))
          → AllSound l
          → c ≢ []
          → Returns (elim (nil_if_empty l) [
            | none ↦ enrich_all lib (default_pipeline (num 2) (num 3)) c tf
            | some p ↦ enrich_all lib p c tf
          ])
      by_pipeline [] h ne = enrich_all-Returns _ c tf ne (default_pipeline-AllSound (num 2) (num 3))
      by_pipeline (e ∷ l) h ne = enrich_all-Returns (e ∷ l) c tf ne h

  enrich_slabs-Returns :
      (l : List (Enricher F)) (slabs : List (Bytes × ChartData F))
      → AllSound l
      → Returns (enrich_slabs lib (nil_if_empty l) slabs)
  unfolding enrich_slabs
  enrich_slabs-Returns l [] h = tt
  enrich_slabs-Returns l ((tf, slab) ∷ slabs) h =
      Returns->>= (enrich_timeframe lib slab.candles tf (nil_if_empty l)) _
        (enrich_timeframe-Returns slab.candles tf l h)
        λ a.
          Returns->>= (enrich_slabs lib (nil_if_empty l) slabs) _ (enrich_slabs-Returns l slabs h)
            λ b. tt

  -- EnrichMulti returns for every result of FetchMulti and every filter: whatever the candles and the
  -- indicator library give, no indicator panics and every loop ends. The constant 0 equals itself.
  pub enrich_multi-Returns :
      (sort : (TimeframeAnnotations → TimeframeAnnotations → Bool)
        → List TimeframeAnnotations
        → List TimeframeAnnotations)
      (multi : MultiChartData F) (only : List Bytes)
      → Returns (enrich_multi lib sort multi only)
  unfolding enrich_multi
  enrich_multi-Returns sort multi only =
      let l = filter_pipeline (default_pipeline (num 2) (num 3)) only in
      let sound =
        filter_pipeline-AllSound (default_pipeline (num 2) (num 3)) only
          (default_pipeline-AllSound (num 2) (num 3)) in
      Returns->>= (enrich_slabs lib (nil_if_empty l) multi.slabs) _
        (enrich_slabs-Returns l multi.slabs sound) λ groups. tt

  -- Compute returns for every name, series and overrides with positive EMA periods: whatever the
  -- candles and the indicator library give, no indicator panics and every loop ends. The constant 0
  -- equals itself.
  compute-Returns :
      (name : Bytes) (c : List (Candle F)) (tf : Bytes) (p : Params F)
      → All IsPositive p.periods
      → Returns (compute lib name c tf p)
  unfolding compute
  compute-Returns name c tf p positive =
      let norm = to_lower (trim_space name) in
      elim (Option-cases (enricher_for (num 2) (num 3) (λ v. v >? num 0) norm p)) [
        | inl unknown ↦ rw (unknown, compute) tt
        | inr (e, found) ↦ elim (Bool-cases (ltb (length c) min_bars)) [
          | inl few ↦ rw (found, compute) (rw few tt)
          | inr many ↦
              rw (found, compute)
                (rw many (
                  Returns->>= (enrich lib e c tf) _
                    (enrich-Returns lib c tf (enough c many) e z (
                      enricher_for-IsSound (num 2) (num 3) (λ v. v >? num 0) norm p positive found))
                    λ a. tt))
        ]
      ]
