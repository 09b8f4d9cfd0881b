-- ===== src/Ta/Levels.antt =====
-- ta/ta.go: the Enrich methods of the indicators on a window of the last candles.
use tradingview_go.Common.{
  Option, none, some, List, [], ◌∷◌, if◌then◌else◌, ℤ, pos, length, ltb_ℤ, ◌-ℤ◌,
}
use tradingview_go.Text.{Bytes, codes, concat}
use tradingview_go.Text.Decimal.{format_int}
use tradingview_go.Types.{Candle}
use tradingview_go.Ta.Float.{Float, ◌⊕◌, ◌⊖◌, ◌⊗◌, ◌⊘◌, ◌<?◌, ◌≤?◌, ◌≥?◌, num, fraction, fixed}
use tradingview_go.Ta.Eval.{Eval, done, ◌>>=◌, or_panic}
use tradingview_go.Ta.Candles.{closes, last_elem, last_part, find_swing}
use tradingview_go.Ta.Library.{Library, Annotation}
use tradingview_go.Ta.States.{sr_state, fib_state, context_state}
use tradingview_go.Ta.Profile.{Area, compute_profile}
use tradingview_go.Ta.Trend.{labelled, one}

-- `if len(c) < lookback { return nil }`, and then the rest on `c[len(c)-lookback:]`.
abbrev pub on_window :
    {F : Type 0}
    → List (Candle F)
    → ℤ
    → (List (Candle F) → Eval (List Annotation))
    → Eval (List Annotation)
on_window c lookback rest =
    if ltb_ℤ (pos (length c)) lookback then done [] else (or_panic (last_part c lookback) >>= rest)

-- `window[0].Open`
unfoldable pub first_open : {F : Type 0} → List (Candle F) → Option F
first_open [] = none
first_open (b ∷ window) = some b.open_

module _ {F Extreme Line : Type 0} ⦃f : Float F⦄ (c : List (Candle F)) (tf : Bytes) where
  -- The part of the Enrich of support and resistance behind the reading of the price.
  unfoldable pub sr_annotation : Library F Extreme Line → ℤ → List F → F → Annotation
  sr_annotation lib lookback cl price =
      let at = pos (length cl) -ℤ pos 1 in
      let sup = lib.line_calc at (lib.support cl (lib.recent_low cl lookback)) in
      let res = lib.line_calc at (lib.resistance cl (lib.recent_high cl lookback)) in
      let to_sup = ((price ⊖ sup) ⊘ price) ⊗ num 100 in
      let to_res = ((res ⊖ price) ⊘ price) ⊗ num 100 in
      record {
        indicator = labelled (codes "S/R Levels") tf;
        value = concat (
            codes "Support="
            ∷ fixed 4 sup
            ∷ codes " ("
            ∷ fixed 1 to_sup
            ∷ codes "% away) Resistance="
            ∷ fixed 4 res
            ∷ codes " ("
            ∷ fixed 1 to_res
            ∷ codes "% away)"
            ∷ []);
        state = sr_state to_sup to_res;
      }

  unfoldable pub enrich_sr : Library F Extreme Line → ℤ → Eval (List Annotation)
  enrich_sr lib lookback = on_window c lookback λ window.
      or_panic (last_elem (closes window)) >>= λ price.
      done (sr_annotation lib lookback (closes window) price ∷ [])

module _ {F : Type 0} ⦃f : Float F⦄ (c : List (Candle F)) (tf : Bytes) where
  -- The switch of the volume profile's Enrich.
  unfoldable pub profile_state : F → Area F → Bytes
  profile_state price area =
      if price ≥? area.vah
      then codes "Above Value Area (potential breakout or mean-revert back)"
      else if price ≤? area.val
      then codes "Below Value Area (potential breakdown or mean-revert up)"
      else if f.abs (price ⊖ area.poc) ⊘ price <? fraction 5 3
      then codes "At POC (high-volume node, strong magnet)"
      else codes "Mid-range"

  unfoldable pub enrich_profile : ℤ → ℤ → Eval (List Annotation)
  enrich_profile bins lookback = on_window c lookback λ window.
      compute_profile bins window >>= λ area. or_panic (last_elem c) >>= λ b.
      one (labelled (concat (codes "Volume Profile(" ∷ format_int lookback ∷ codes ")" ∷ [])) tf)
        (concat (
          codes "POC="
          ∷ fixed 4 area.poc
          ∷ codes " VAH="
          ∷ fixed 4 area.vah
          ∷ codes " VAL="
          ∷ fixed 4 area.val
          ∷ []))
        (profile_state b.close area)

  unfoldable pub fib_annotation : F → F → F → Annotation
  fib_annotation high low price =
      let rng = high ⊖ low in
      let r382 = high ⊖ rng ⊗ fraction 382 3 in
      let r500 = high ⊖ rng ⊗ fraction 5 1 in
      let r618 = high ⊖ rng ⊗ fraction 618 3 in
      let r786 = high ⊖ rng ⊗ fraction 786 3 in
      record {
        indicator = labelled (codes "Fib Levels") tf;
        value = concat (
            codes "Swing: "
            ∷ fixed 2 low
            ∷ codes "->"
            ∷ fixed 2 high
            ∷ codes " | Retrace: 0.382="
            ∷ fixed 2 r382
            ∷ codes " 0.5="
            ∷ fixed 2 r500
            ∷ codes " 0.618="
            ∷ fixed 2 r618
            ∷ codes " 0.786="
            ∷ fixed 2 r786
            ∷ codes " | Ext: 1.272="
            ∷ fixed 2 (high ⊕ rng ⊗ fraction 272 3)
            ∷ codes " 1.414="
            ∷ fixed 2 (high ⊕ rng ⊗ fraction 414 3)
            ∷ codes " 1.618="
            ∷ fixed 2 (high ⊕ rng ⊗ fraction 618 3)
            ∷ codes " 2.0="
            ∷ fixed 2 (high ⊕ rng ⊗ fraction 10 1)
            ∷ codes " 2.618="
            ∷ fixed 2 (high ⊕ rng ⊗ fraction 1618 3)
            ∷ []);
        state = fib_state price high low r382 r500 r618 r786;
      }

  unfoldable pub enrich_fib : ℤ → Eval (List Annotation)
  enrich_fib lookback = on_window c lookback λ window. or_panic (find_swing window) >>= λ swing.
      let (high, low) = swing in
      if high ≤? low
      then done []
      else (or_panic (last_elem c) >>= λ b. done (fib_annotation high low b.close ∷ []))

  unfoldable pub context_annotation : ℤ → F → F → F → F → Annotation
  context_annotation lookback high low open_price price =
      let from_high = ((price ⊖ high) ⊘ high) ⊗ num 100 in
      let from_low = ((price ⊖ low) ⊘ low) ⊗ num 100 in
      let velocity = ((price ⊖ open_price) ⊘ open_price) ⊗ num 100 in
      record {
        indicator = labelled (codes "Price Context") tf;
        value = concat (
            codes "Range: "
            ∷ fixed 2 low
            ∷ codes "->"
            ∷ fixed 2 high
            ∷ codes " ("
            ∷ format_int lookback
            ∷ codes "bar) | Now: "
            ∷ fixed 2 price
            ∷ codes " | From High: "
            ∷ fixed 1 from_high
            ∷ codes "% | From Low: "
            ∷ fixed 1 from_low
            ∷ codes "% | Velocity: "
            ∷ fixed 1 velocity
            ∷ codes "%"
            ∷ []);
        state = context_state from_high from_low velocity;
      }

  unfoldable pub enrich_context : ℤ → Eval (List Annotation)
  enrich_context lookback = on_window c lookback λ window. or_panic (find_swing window) >>= λ swing.
      or_panic (first_open window) >>= λ open_price. or_panic (last_elem c) >>= λ b.
      done (context_annotation lookback swing.0 swing.1 open_price b.close ∷ [])
