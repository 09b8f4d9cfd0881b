-- ===== src/Ta/Momentum.antt =====
-- ta/ta.go: the Enrich methods of supertrend, VWAP, OBV, ADX, the stochastic RSI and the divergence.
use tradingview_go.Common.{none, some, List, [], ◌∷◌, if◌then◌else◌, ℤ, length, ltb}
use tradingview_go.Text.{Bytes, codes, concat}
use tradingview_go.Text.Decimal.{format_int}
use tradingview_go.Types.{Candle}
use tradingview_go.Ta.Float.{Float, ◌⊖◌, ◌⊗◌, ◌<?◌, ◌>?◌, ◌=?◌, num, fraction, fixed}
use tradingview_go.Ta.Eval.{Eval, done, panics}
use tradingview_go.Ta.Candles.{closes, hlc, close_volume, volume_close, last, last_elem}
use tradingview_go.Ta.Library.{Library, Annotation}
use tradingview_go.Ta.States.{adx_state, stoch_rsi_state}
use tradingview_go.Ta.Trend.{labelled, one, from_end}

module _ {F Extreme Line : Type 0} ⦃f : Float F⦄ (lib : Library F Extreme Line)
    (c : List (Candle F)) (tf : Bytes) where
  unfoldable pub enrich_supertrend : ℤ → F → Eval (List Annotation)
  enrich_supertrend period multiplier =
      elim (last_elem (lib.supertrend (hlc c) period multiplier)) [
        | none ↦ done []
        | some (value, direction) ↦
            one
              (labelled
                (concat (
                  codes "Supertrend("
                  ∷ format_int period
                  ∷ codes ","
                  ∷ fixed 1 multiplier
                  ∷ codes ")"
                  ∷ []))
                tf)
              (fixed 4 value)
              (if direction <? num 0
                then codes "Bearish (price below supertrend)"
                else codes "Bullish (price above supertrend)")
      ]

  unfoldable pub enrich_vwap : ℤ → Eval (List Annotation)
  enrich_vwap period =
      let v = last (lib.vwap (close_volume c) period) in
      elim (last_elem c) [
        | none ↦ panics
        | some b ↦
            one (labelled (concat (codes "VWAP(" ∷ format_int period ∷ codes ")" ∷ [])) tf)
              (concat (fixed 4 v ∷ codes " (Price=" ∷ fixed 4 b.close ∷ codes ")" ∷ []))
              (if b.close <? v
                then codes "Price below VWAP (bearish bias)"
                else codes "Price above VWAP (bullish bias)")
      ]

  unfoldable pub enrich_obv : Eval (List Annotation)
  enrich_obv =
      let obv = lib.obv (volume_close c) in
      if ltb (length obv) 20 then done [] else elim (from_end 1 obv) [
        | none ↦ panics
        | some cur ↦ elim (from_end 10 obv) [
          | none ↦ panics
          | some prev ↦
              one (labelled (codes "OBV") tf)
                (concat
                  (fixed 0 cur ∷ codes " (10-bar delta: " ∷ fixed 0 (cur ⊖ prev) ∷ codes ")" ∷ []))
                (if cur >? prev ⊗ fraction 11 1
                  then codes "Rising (accumulation)"
                  else if cur <? prev ⊗ fraction 9 1
                  then codes "Falling (distribution)"
                  else codes "Flat (no volume conviction)")
        ]
      ]

  unfoldable pub enrich_adx : ℤ → Eval (List Annotation)
  enrich_adx period =
      let v = last (lib.adx (hlc c) period) in
      one (labelled (concat (codes "ADX(" ∷ format_int period ∷ codes ")" ∷ [])) tf) (fixed 1 v)
        (adx_state v)

  unfoldable pub enrich_stoch_rsi : ℤ → ℤ → ℤ → ℤ → Eval (List Annotation)
  enrich_stoch_rsi rsi_period stoch_period smooth_k smooth_d =
      elim (last_elem (lib.stoch_rsi (closes c) rsi_period stoch_period smooth_k smooth_d)) [
        | none ↦ done []
        | some (k, d) ↦
            one
              (labelled
                (concat (
                  codes "StochRSI("
                  ∷ format_int rsi_period
                  ∷ codes ","
                  ∷ format_int stoch_period
                  ∷ codes ")"
                  ∷ []))
                tf)
              (concat (codes "K=" ∷ fixed 1 k ∷ codes " D=" ∷ fixed 1 d ∷ [])) (stoch_rsi_state k d)
      ]

  unfoldable pub enrich_divergence : ℤ → Eval (List Annotation)
  enrich_divergence period =
      let v = last (lib.rsi_divergence (closes c) period lib.rsi) in
      if v =? num 0
      then done []
      else one (labelled (codes "RSI Divergence") tf) (fixed 2 v) (
          if v <? num 0
          then codes "Bearish divergence detected"
          else codes "Bullish divergence detected")
