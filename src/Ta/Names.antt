-- ===== src/Ta/Names.antt =====
-- The names of the indicators: enricherFor and the filter of the pipeline go by the same ones.
use tradingview_go.Common.{
  Bool-cases, inl, inr, ◌≡◌, refl, ◌∙◌, sym, ap, Bool, true, false, some, List, [], ◌∷◌, arith,
  if◌then◌else◌, pos, All,
}
use tradingview_go.Text.{trim_space, Bytes, beq, beq_iff}
use tradingview_go.Symbols.{lookup, member}
use tradingview_go.Ta.{
  rsi, atr, vwap, adx, divergence, support_resistance, fib_levels, price_context, macd, ema,
  bollinger, supertrend, obv, stoch_rsi, volume_profile, to_lower_byte, Enricher, Params,
  enricher_name, float_or, int_or, periods_or, default_pipeline, indicator_names, cases,
  enricher_for, filter_pipeline, keep_wanted,
}

module _ {F : Type 0} where
  -- Each entry has the name of its enricher.
  abbrev IsNamed : List (Bytes × Enricher F) → Type 0
  IsNamed = All (λ c. enricher_name c.1 ≡ c.0)

  lookup-IsNamed :
      (name : Bytes) (l : List (Bytes × Enricher F)) {e : Enricher F}
      → IsNamed l
      → lookup name l ≡ some e
      → enricher_name e ≡ name
  unfolding lookup
  lookup-IsNamed name [] h found = absurd (ground arith)
  lookup-IsNamed name ((k, x) ∷ l) {e} (named, h) found = elim (Bool-cases (beq k name)) [
    | inl here ↦
        let same : x ≡ e = ground arith in
        ap enricher_name (sym same) ∙ named ∙ (beq_iff k name).0 here
    | inr other ↦ lookup-IsNamed name l h (ground arith)
  ]

  module _ (two three : F) (above_zero : F → Bool) where
    cases-IsNamed : (p : Params F) → IsNamed (cases two three above_zero p)
    unfolding cases enricher_name
    cases-IsNamed p = (
      refl,
      (
        refl,
        (
          refl,
          (
            refl,
            (
              refl,
              (refl, (refl, (refl, (refl, (refl, (refl, (refl, (refl, (refl, (refl, tt)))))))))),
            ),
          ),
        ),
      ),
    )

    enricher_name-listed :
        (e : Enricher F) → member (enricher_name e) (indicator_names two three) ≡ true
    unfolding enricher_name indicator_names default_pipeline member beq
    enricher_name-listed (rsi _) = refl
    enricher_name-listed (macd _ _ _) = refl
    enricher_name-listed (ema _) = refl
    enricher_name-listed (bollinger _ _) = refl
    enricher_name-listed (atr _) = refl
    enricher_name-listed (supertrend _ _) = refl
    enricher_name-listed (vwap _) = refl
    enricher_name-listed obv = refl
    enricher_name-listed (adx _) = refl
    enricher_name-listed (stoch_rsi _ _ _ _) = refl
    enricher_name-listed (divergence _) = refl
    enricher_name-listed (support_resistance _) = refl
    enricher_name-listed (volume_profile _ _) = refl
    enricher_name-listed (fib_levels _) = refl
    enricher_name-listed (price_context _) = refl

    -- The enricher that enricherFor gives has the name that was asked for, and this name is one of
    -- those that IndicatorNames lists.
    pub enricher_for-name :
        (name : Bytes) (p : Params F) {e : Enricher F}
        → enricher_for two three above_zero name p ≡ some e
        → (enricher_name e ≡ name) × (member name (indicator_names two three) ≡ true)
    unfolding enricher_for
    enricher_for-name name p {e} found =
        let named = lookup-IsNamed name (cases two three above_zero p) (cases-IsNamed p) found in
        (named, ap (λ n. member n (indicator_names two three)) (sym named) ∙ enricher_name-listed e)

    -- `Params{}`
    abbrev pub zero_params : F → Params F
    zero_params float_zero = record {
      period = pos 0;
      fast = pos 0;
      slow = pos 0;
      signal = pos 0;
      std_dev = float_zero;
      multiplier = float_zero;
      periods = [];
      lookback = pos 0;
    }

    -- Compute without overrides runs what EnrichMulti runs when it is told one name: for each enricher
    -- of the default pipeline, enricherFor of its name is that enricher, and the filter by its name
    -- leaves it alone. A zero is not above zero.
    pub enricher_for-filter_pipeline :
        (float_zero : F)
        → above_zero float_zero ≡ false
        → All
            (λ e.
              (enricher_for two three above_zero (enricher_name e) (zero_params float_zero)
                ≡ some e)
              × (filter_pipeline (default_pipeline two three) (enricher_name e ∷ []) ≡ e ∷ []))
            (default_pipeline two three)
    unfolding enricher_for cases lookup int_or float_or periods_or filter_pipeline keep_wanted
        default_pipeline enricher_name member beq to_lower_byte trim_space
    enricher_for-filter_pipeline float_zero h = (
      (refl, refl),
      (
        (refl, refl),
        (
          (refl, refl),
          (
            (ap (λ b. some (bollinger (pos 20) (if b then float_zero else two))) h, refl),
            (
              (refl, refl),
              (
                (ap (λ b. some (supertrend (pos 10) (if b then float_zero else three))) h, refl),
                (
                  (refl, refl),
                  (
                    (refl, refl),
                    (
                      (refl, refl),
                      (
                        (refl, refl),
                        (
                          (refl, refl),
                          ((refl, refl), ((refl, refl), ((refl, refl), ((refl, refl), tt)))),
                        ),
                      ),
                    ),
                  ),
                ),
              ),
            ),
          ),
        ),
      ),
    )
