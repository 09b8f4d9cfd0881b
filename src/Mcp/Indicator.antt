-- ===== src/Mcp/Indicator.antt =====
-- mcp/analyze.go, indicator: the reply on every branch.
use tradingview_go.Common.{
  ℕ, ◌≤◌, ◌≡◌, refl, ◌∙◌, ap, ◌⊎◌, inl, inr, false, ltb, ◌<◌, ◌++◌, Bool-cases, Option,
  Option-cases, none, some, List, arith, pos, length,
}
use tradingview_go.Text.{Bytes, codes, trim_space}
use tradingview_go.Types.{ChartData}
use tradingview_go.Errors.{Error, Result, ok, err, code_text, Result-cases}
use tradingview_go.Client.{Client, Env, fetch}
use tradingview_go.Ta.Float.{Float, num, ◌>?◌}
use tradingview_go.Ta.Eval.{Eval, done, panics, no_fuel, ◌>>=◌}
use tradingview_go.Ta.Library.{Library, Annotation}
use tradingview_go.Ta.{Enricher, enricher_for, indicator_names, to_lower}
use tradingview_go.Ta.Pipeline.{
  compute, computed_error, enrich, min_bars, Computed, unknown_indicator, too_few, computed,
}
use tradingview_go.Mcp.{
  Reply, tool_error, wrap_err, default_int, sdk, IndicatorInput, IndicatorOutput, indicator,
  indicator_reply,
}
use tradingview_go.Mcp.Replies.{Gives}

-- This error with a code for the host, and no value.
abbrev pub Fails : {A : Type 0} → Bytes → Bytes → Reply A → Type 0
Fails code message r = (r.value ≡ none) × (r.error ≡ some (tool_error code message))

-- A computation does not return, and another one ends in the same way.
abbrev pub Stops : {A B : Type 0} → Eval A → Eval B → Type 0
Stops m n = ((m ≡ panics) × (n ≡ panics)) ⊎ ((m ≡ no_fuel) × (n ≡ no_fuel))

module _ {F Extreme Line : Type 0} ⦃f : Float F⦄ (lib : Library F Extreme Line) (c : Client F)
    (quote : Bytes → Bytes) (input : IndicatorInput F) (env : Env F) where
  -- What Fetch gives for the input's symbol, resolution and bars, 300 where these are not positive.
  abbrev pub asked : Result (ChartData F)
  asked = (fetch c input.symbol input.resolution (default_int input.bars (pos 300)) env).0

  -- The indicator that the input names, if there is one.
  abbrev pub named : Option (Enricher F)
  named =
      enricher_for (num 2) (num 3) (λ v. v >? num 0) (to_lower (trim_space input.indicator))
        input.params

  -- The text of an error of Compute.
  abbrev pub message_of : Computed → Option Bytes
  message_of = computed_error quote (indicator_names {F = F} (num 2) (num 3))

  -- The reply with the error of Compute.
  abbrev pub Refuses : Computed → Type 0
  Refuses failed =
      (message : Bytes) × (r : Reply IndicatorOutput) × (message_of failed ≡ some message)
      × ((indicator lib c quote input env).0 ≡ done r)
      × Fails (codes "invalid_input") message r

  -- The reply over the candles of a chart.
  abbrev pub OnChart : ChartData F → Type 0
  OnChart chart =
      ((named ≡ none) × Refuses (unknown_indicator (to_lower (trim_space input.indicator))))
      ⊎ ((e : Enricher F) × (named ≡ some e)
          × (length chart.candles < min_bars)
          × Refuses (too_few input.indicator (length chart.candles)))
      ⊎ ((e : Enricher F) × (named ≡ some e)
          × (min_bars ≤ length chart.candles)
          × (annotations : List Annotation) × (enrich lib e chart.candles input.resolution
              ≡ done annotations)
          × (r : Reply IndicatorOutput) × ((indicator lib c quote input env).0 ≡ done r)
          × Gives
              (record {
                symbol = input.symbol;
                resolution = input.resolution;
                indicator = input.indicator;
                annotations = annotations;
              })
              r)
      ⊎ ((e : Enricher F) × (named ≡ some e)
          × (min_bars ≤ length chart.candles)
          × Stops (enrich lib e chart.candles input.resolution) (indicator lib c quote input env).0)

  unfetched :
      (e : Error)
      → asked ≡ err e
      → (r : Reply IndicatorOutput) × ((indicator lib c quote input env).0 ≡ done r)
        × Fails (code_text e.code) (codes "indicator" ++ (codes ": " ++ e.message)) r
  unfolding wrap_err indicator
  unfetched e failed = (
    record { value = none; error = wrap_err (some (sdk e)) (codes "indicator") },
    rw (failed, indicator) refl,
    (refl, refl),
  )

  -- The tool over what Compute makes of the chart.
  over_chart :
      (chart : ChartData F)
      → asked ≡ ok chart
      → (indicator lib c quote input env).0 ≡ (
          compute lib input.indicator chart.candles input.resolution input.params >>= λ result.
          done (indicator_reply quote input result))
  unfolding indicator
  over_chart chart fetched = rw (fetched, indicator) refl

  -- The tool over a result of Compute.
  over_result :
      (chart : ChartData F) (result : Computed)
      → asked ≡ ok chart
      → compute lib input.indicator chart.candles input.resolution input.params ≡ done result
      → (indicator lib c quote input env).0 ≡ done (indicator_reply quote input result)
  over_result chart result fetched is =
      over_chart chart fetched
      ∙ ap (λ m. m >>= λ result. done (indicator_reply quote input result)) is

  Refuses-unknown_indicator :
      (name : Bytes)
      → (indicator lib c quote input env).0
        ≡ done (indicator_reply quote input (unknown_indicator name))
      → Refuses (unknown_indicator name)
  unfolding computed_error indicator_reply
  Refuses-unknown_indicator name e = (_, _, refl, e, (refl, refl))

  Refuses-too_few :
      (name : Bytes) (n : ℕ)
      → (indicator lib c quote input env).0 ≡ done (indicator_reply quote input (too_few name n))
      → Refuses (too_few name n)
  unfolding computed_error indicator_reply
  Refuses-too_few name n e = (_, _, refl, e, (refl, refl))

  -- Compute with an indicator and enough candles.
  compute-enrich :
      (chart : ChartData F) (e : Enricher F)
      → named ≡ some e
      → min_bars ≤ length chart.candles
      → compute lib input.indicator chart.candles input.resolution input.params
        ≡ (enrich lib e chart.candles input.resolution >>= λ a. done (computed a))
  unfolding compute
  compute-enrich chart e there long =
      let many : ltb (length chart.candles) min_bars ≡ false = ground arith in
      rw (there, compute) (rw many refl)

  on_enriched :
      (chart : ChartData F) (e : Enricher F)
      → asked ≡ ok chart
      → named ≡ some e
      → min_bars ≤ length chart.candles
      → OnChart chart
  unfolding indicator_reply
  on_enriched chart e fetched there long = go (enrich lib e chart.candles input.resolution) refl
    where
      after : Eval (List Annotation) → Eval (Reply IndicatorOutput)
      after m =
          (m >>= λ a. done (computed a)) >>= λ result. done (indicator_reply quote input result)

      tool :
          (indicator lib c quote input env).0 ≡ after (enrich lib e chart.candles input.resolution)
      tool =
          over_chart chart fetched
          ∙ ap (λ m. m >>= λ result. done (indicator_reply quote input result))
              (compute-enrich chart e there long)

      go :
          (m : Eval (List Annotation))
          → enrich lib e chart.candles input.resolution ≡ m
          → OnChart chart
      go (done annotations) is =
          inr (inr (inl (e, there, long, annotations, is, _, tool ∙ ap after is, (refl, refl))))
      go panics is = inr (inr (inr (e, there, long, inl (is, tool ∙ ap after is))))
      go no_fuel is = inr (inr (inr (e, there, long, inr (is, tool ∙ ap after is))))

  on_chart : (chart : ChartData F) → asked ≡ ok chart → OnChart chart
  on_chart chart fetched = elim (Option-cases named) [
    | inl nothing ↦
        let is : compute lib input.indicator chart.candles input.resolution input.params
            ≡ done (unknown_indicator (to_lower (trim_space input.indicator))) =
          unfold compute in rw (nothing, compute) refl in
        inl (nothing, Refuses-unknown_indicator _ (over_result chart _ fetched is))
    | inr (e, there) ↦ elim (Bool-cases (ltb (length chart.candles) min_bars)) [
      | inl few ↦
          let is : compute lib input.indicator chart.candles input.resolution input.params
              ≡ done (too_few input.indicator (length chart.candles)) =
            unfold compute in rw (there, compute) (rw few refl) in
          inr (inl (e, there, ground arith, Refuses-too_few _ _ (over_result chart _ fetched is)))
      | inr many ↦ on_enriched chart e fetched there (ground arith)
    ]
  ]

  -- What the tool tradingview_indicator does on every input. Where Fetch fails, it replies with the code
  -- of that error and no value; for an unknown name, or fewer candles than Compute needs, with
  -- invalid_input, Compute's message and no value; and otherwise with no error and exactly the
  -- annotations that the named indicator, with its overrides, finds in the candles that Fetch gave.
  -- Where that indicator does not return, the tool does not either.
  pub indicator-outcome :
      ((e : Error) × (asked ≡ err e)
        × (r : Reply IndicatorOutput) × ((indicator lib c quote input env).0 ≡ done r)
        × Fails (code_text e.code) (codes "indicator" ++ (codes ": " ++ e.message)) r)
      ⊎ ((chart : ChartData F) × (asked ≡ ok chart) × OnChart chart)
  indicator-outcome = elim (Result-cases asked) [
    | inr (e, failed) ↦ let (r, is, fails) = unfetched e failed in inl (e, failed, r, is, fails)
    | inl (chart, fetched) ↦ inr (chart, fetched, on_chart chart fetched)
  ]
