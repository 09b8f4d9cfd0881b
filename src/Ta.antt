-- ===== src/Ta.antt =====
-- ta/ta.go: the pipeline of indicators, their names, and the choice of one by name. A float64 and its
-- test against 0 are parameters. What an enricher computes is not modelled here.
pub mod Names
pub mod Float
pub mod States
pub mod Eval
pub mod Candles
pub mod Profile
pub mod Library
pub mod Trend
pub mod Momentum
pub mod Levels
pub mod Pipeline
pub mod Tests
use tradingview_go.Common.{
  ℕ, ◌+◌, Bool, true, false, ◌&&◌, Option, none, some, List, [], ◌∷◌, leb, ltb_ℤ, if◌then◌else◌, ℤ,
  pos, map,
}
use tradingview_go.Text.{Bytes, codes, beq, trim_space}
use tradingview_go.Symbols.{lookup, member}

-- strings.ToLower
unfoldable pub to_lower_byte : ℕ → ℕ
to_lower_byte c = if leb b'A' c && leb c b'Z' then c + 32 else c

abbrev pub to_lower : Bytes → Bytes
to_lower = map to_lower_byte

-- The types that implement Enricher, with their fields.
pub data Enricher (F : Type 0) : Type 0 where
  rsi atr vwap adx divergence support_resistance fib_levels price_context : ℤ → Enricher F
  macd : (fast slow signal : ℤ) → Enricher F
  ema : List ℤ → Enricher F
  bollinger supertrend : ℤ → F → Enricher F
  obv : Enricher F
  stoch_rsi : (rsi_period stoch_period smooth_k smooth_d : ℤ) → Enricher F
  volume_profile : (bins lookback : ℤ) → Enricher F

pub record Params (F : Type 0) : Type 0 where
  pub period : ℤ
  pub fast : ℤ
  pub slow : ℤ
  pub signal : ℤ
  pub std_dev : F
  pub multiplier : F
  pub periods : List ℤ
  pub lookback : ℤ

-- The helper `pi` of enricherFor.
unfoldable pub int_or : ℤ → ℤ → ℤ
int_or v d = if ltb_ℤ (pos 0) v then v else d

unfoldable pub periods_or : List ℤ → List ℤ → List ℤ
periods_or [] d = d
periods_or (x ∷ l) d = x ∷ l

module _ {F : Type 0} where
  unfoldable pub enricher_name : Enricher F → Bytes
  enricher_name (rsi _) = codes "rsi"
  enricher_name (macd _ _ _) = codes "macd"
  enricher_name (ema _) = codes "ema"
  enricher_name (bollinger _ _) = codes "bollinger"
  enricher_name (atr _) = codes "atr"
  enricher_name (supertrend _ _) = codes "supertrend"
  enricher_name (vwap _) = codes "vwap"
  enricher_name obv = codes "obv"
  enricher_name (adx _) = codes "adx"
  enricher_name (stoch_rsi _ _ _ _) = codes "stochrsi"
  enricher_name (divergence _) = codes "divergence"
  enricher_name (support_resistance _) = codes "sr"
  enricher_name (volume_profile _ _) = codes "volume_profile"
  enricher_name (fib_levels _) = codes "fib"
  enricher_name (price_context _) = codes "price_context"

  -- The loop of filterPipeline.
  unfoldable pub keep_wanted : List Bytes → List (Enricher F) → List (Enricher F)
  keep_wanted want [] = []
  keep_wanted want (e ∷ pipeline) =
      let rest = keep_wanted want pipeline in
      if member (enricher_name e) want then e ∷ rest else rest

  unfoldable pub filter_pipeline : List (Enricher F) → List Bytes → List (Enricher F)
  filter_pipeline pipeline [] = pipeline
  filter_pipeline pipeline (n ∷ only) =
      keep_wanted (map (λ n. to_lower (trim_space n)) (n ∷ only)) pipeline

  -- The helper `pf`.
  unfoldable pub float_or : (F → Bool) → F → F → F
  float_or above_zero v d = if above_zero v then v else d

  -- The constants 2.0 and 3.0.
  module _ (two three : F) where
    unfoldable pub default_pipeline : List (Enricher F)
    default_pipeline =
        rsi (pos 14)
        ∷ macd (pos 12) (pos 26) (pos 9)
        ∷ ema (pos 20 ∷ pos 50 ∷ pos 200 ∷ [])
        ∷ bollinger (pos 20) two
        ∷ atr (pos 14)
        ∷ supertrend (pos 10) three
        ∷ vwap (pos 20)
        ∷ obv
        ∷ adx (pos 14)
        ∷ stoch_rsi (pos 14) (pos 14) (pos 3) (pos 3)
        ∷ divergence (pos 14)
        ∷ support_resistance (pos 50)
        ∷ volume_profile (pos 24) (pos 100)
        ∷ fib_levels (pos 200)
        ∷ price_context (pos 200)
        ∷ []

    unfoldable pub indicator_names : List Bytes
    indicator_names = map enricher_name default_pipeline

  -- With the test `v > 0`.
  module _ (two three : F) (above_zero : F → Bool) where
    -- The cases of the switch in enricherFor.
    unfoldable pub cases : Params F → List (Bytes × Enricher F)
    unfolding int_or float_or periods_or
    cases p =
        (codes "rsi", rsi (int_or p.period (pos 14)))
        ∷ (
          codes "macd",
          macd (int_or p.fast (pos 12)) (int_or p.slow (pos 26)) (int_or p.signal (pos 9)),
        )
        ∷ (codes "ema", ema (periods_or p.periods (pos 20 ∷ pos 50 ∷ pos 200 ∷ [])))
        ∷ (
          codes "bollinger",
          bollinger (int_or p.period (pos 20)) (float_or above_zero p.std_dev two),
        )
        ∷ (codes "atr", atr (int_or p.period (pos 14)))
        ∷ (
          codes "supertrend",
          supertrend (int_or p.period (pos 10)) (float_or above_zero p.multiplier three),
        )
        ∷ (codes "vwap", vwap (int_or p.period (pos 20)))
        ∷ (codes "obv", obv)
        ∷ (codes "adx", adx (int_or p.period (pos 14)))
        ∷ (codes "stochrsi", stoch_rsi (int_or p.period (pos 14)) (pos 14) (pos 3) (pos 3))
        ∷ (codes "divergence", divergence (int_or p.period (pos 14)))
        ∷ (codes "sr", support_resistance (int_or p.lookback (pos 50)))
        ∷ (codes "volume_profile", volume_profile (pos 24) (int_or p.lookback (pos 100)))
        ∷ (codes "fib", fib_levels (int_or p.lookback (pos 200)))
        ∷ (codes "price_context", price_context (int_or p.lookback (pos 200)))
        ∷ []

    -- enricherFor; `none` for its error.
    unfoldable pub enricher_for : Bytes → Params F → Option (Enricher F)
    enricher_for name p = lookup name (cases p)
