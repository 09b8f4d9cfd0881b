-- ===== src/Ta/Pipeline.antt =====
-- ta/ta.go: EnrichTimeframe, EnrichMulti and Compute. sort.Slice is a parameter.
pub mod Safe
pub mod Total
pub mod Filter
pub mod Durations
pub mod Order
use tradingview_go.Common.{
  ℕ, Bool, true, false, Option, none, some, List, [], ◌∷◌, ◌++◌, if◌then◌else◌, ℤ, pos, length, ltb,
  map,
}
use tradingview_go.Text.{Bytes, codes, beq, trim_space, concat}
use tradingview_go.Text.Decimal.{format_nat}
use tradingview_go.Types.{Candle, ChartData, MultiChartData}
use tradingview_go.Symbols.{lookup}
use tradingview_go.Ta.{
  Enricher, rsi, atr, vwap, adx, divergence, support_resistance, fib_levels, price_context, macd,
  ema, bollinger, supertrend, obv, stoch_rsi, volume_profile, Params, filter_pipeline,
  default_pipeline, enricher_for, indicator_names, to_lower,
}
use tradingview_go.Ta.Float.{Float, num, ◌>?◌}
use tradingview_go.Ta.Eval.{Eval, done, panics, no_fuel, ◌>>=◌}
use tradingview_go.Ta.Library.{Library, Annotation}
use tradingview_go.Ta.Trend.{enrich_rsi, enrich_macd, enrich_ema, enrich_bollinger, enrich_atr}
use tradingview_go.Ta.Momentum.{
  enrich_supertrend, enrich_vwap, enrich_obv, enrich_adx, enrich_stoch_rsi, enrich_divergence,
}
use tradingview_go.Ta.Levels.{enrich_sr, enrich_profile, enrich_fib, enrich_context}

abbrev pub min_bars : ℕ
min_bars = 50

pub record TimeframeAnnotations : Type 0 where
  pub timeframe : Bytes
  pub bars : ℕ
  pub annotations : List Annotation

unfoldable pub tf_order : List (Bytes × ℕ)
tf_order =
    (codes "1", 1)
    ∷ (codes "5", 2)
    ∷ (codes "15", 3)
    ∷ (codes "30", 4)
    ∷ (codes "60", 5)
    ∷ (codes "120", 6)
    ∷ (codes "240", 7)
    ∷ (codes "D", 8)
    ∷ (codes "W", 9)
    ∷ (codes "M", 10)
    ∷ []

unfoldable pub tf_rank : Bytes → ℕ
unfolding tf_order
tf_rank tf = elim (lookup tf tf_order) [ some r ↦ r | none ↦ 99 ]

-- The test that EnrichMulti gives to sort.Slice.
abbrev pub ranks_below : TimeframeAnnotations → TimeframeAnnotations → Bool
ranks_below a b = ltb (tf_rank a.timeframe) (tf_rank b.timeframe)

-- A slice that is declared with `var` and only appended to is nil as long as it is empty.
unfoldable pub nil_if_empty : {A : Type 0} → List A → Option (List A)
nil_if_empty [] = none
nil_if_empty (x ∷ l) = some (x ∷ l)

module _ {F Extreme Line : Type 0} ⦃f : Float F⦄ (lib : Library F Extreme Line) where
  -- Enricher.Enrich
  unfoldable pub enrich : Enricher F → List (Candle F) → Bytes → Eval (List Annotation)
  enrich (rsi period) c tf = enrich_rsi lib c tf period
  enrich (macd fast slow signal) c tf = enrich_macd lib c tf fast slow signal
  enrich (ema periods) c tf = enrich_ema lib c tf periods
  enrich (bollinger period std_dev) c tf = enrich_bollinger lib c tf period std_dev
  enrich (atr period) c tf = enrich_atr lib c tf period
  enrich (supertrend period multiplier) c tf = enrich_supertrend lib c tf period multiplier
  enrich (vwap period) c tf = enrich_vwap lib c tf period
  enrich obv c tf = enrich_obv lib c tf
  enrich (adx period) c tf = enrich_adx lib c tf period
  enrich (stoch_rsi r s k d) c tf = enrich_stoch_rsi lib c tf r s k d
  enrich (divergence period) c tf = enrich_divergence lib c tf period
  enrich (support_resistance lookback) c tf = enrich_sr c tf lib lookback
  enrich (volume_profile bins lookback) c tf = enrich_profile c tf bins lookback
  enrich (fib_levels lookback) c tf = enrich_fib c tf lookback
  enrich (price_context lookback) c tf = enrich_context c tf lookback

  -- The loop of EnrichTimeframe.
  unfoldable pub enrich_all : List (Enricher F) → List (Candle F) → Bytes → Eval (List Annotation)
  enrich_all [] c tf = done []
  enrich_all (e ∷ pipeline) c tf = do
    annotations ← enrich e c tf
    rest ← enrich_all pipeline c tf
    done (annotations ++ rest)

  -- `none` is the nil pipeline.
  unfoldable pub enrich_timeframe :
      List (Candle F) → Bytes → Option (List (Enricher F)) → Eval (List Annotation)
  enrich_timeframe c tf pipeline = if ltb (length c) min_bars then done [] else elim pipeline [
    | none ↦ enrich_all (default_pipeline (num 2) (num 3)) c tf
    | some p ↦ enrich_all p c tf
  ]

  -- The loop of EnrichMulti over the slabs, in the order of the range over the map.
  unfoldable pub enrich_slabs :
      Option (List (Enricher F)) → List (Bytes × ChartData F) → Eval (List TimeframeAnnotations)
  enrich_slabs pipeline [] = done []
  enrich_slabs pipeline ((tf, slab) ∷ slabs) = do
    annotations ← enrich_timeframe slab.candles tf pipeline
    rest ← enrich_slabs pipeline slabs
    done (record { timeframe = tf; bars = length slab.candles; annotations = annotations } ∷ rest)

  -- `sort` is sort.Slice.
  unfoldable pub enrich_multi :
      ((TimeframeAnnotations → TimeframeAnnotations → Bool)
        → List TimeframeAnnotations
        → List TimeframeAnnotations)
      → MultiChartData F
      → List Bytes
      → Eval (List TimeframeAnnotations)
  enrich_multi sort multi only = do
    groups ←
        enrich_slabs (nil_if_empty (filter_pipeline (default_pipeline (num 2) (num 3)) only))
          multi.slabs
    done (sort ranks_below groups)

-- What Compute returns without a panic.
pub data Computed : Type 0 where
  unknown_indicator : Bytes → Computed
  too_few : Bytes → ℕ → Computed
  computed : List Annotation → Computed

-- strings.Join
abbrev join_texts : Bytes → List Bytes → Bytes
join_texts sep [] = []
join_texts sep (s ∷ []) = s
join_texts sep (s ∷ t ∷ texts) = s ++ (sep ++ join_texts sep (t ∷ texts))

module _ {F Extreme Line : Type 0} ⦃f : Float F⦄ (lib : Library F Extreme Line) where
  unfoldable pub compute : Bytes → List (Candle F) → Bytes → Params F → Eval Computed
  compute name c tf p =
      let norm = to_lower (trim_space name) in
      elim (enricher_for (num 2) (num 3) (λ v. v >? num 0) norm p) [
        | none ↦ done (unknown_indicator norm)
        | some e ↦
            if ltb (length c) min_bars
            then done (too_few name (length c))
            else do annotations ← enrich lib e c tf; done (computed annotations)
      ]

-- The error that Compute returns with a case of it; `quote` is the verb %q.
unfoldable pub computed_error : (Bytes → Bytes) → List Bytes → Computed → Option Bytes
computed_error quote names (unknown_indicator name) = some (
    codes "ta: unknown indicator "
    ++ (quote name ++ (codes "; valid: " ++ join_texts (codes ", ") names)))
computed_error quote names (too_few name n) = some (
    codes "ta: need at least "
    ++ (format_nat min_bars
        ++ (codes " candles for " ++ (quote name ++ (codes ", got " ++ format_nat n)))))
computed_error quote names (computed annotations) = none
