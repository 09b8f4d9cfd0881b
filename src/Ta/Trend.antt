-- ===== src/Ta/Trend.antt =====
-- ta/ta.go: the Enrich methods of the indicators on the whole series. Each gives its annotations, or
-- panics.
use tradingview_go.Common.{
  ℕ, Option, none, some, List, [], ◌∷◌, ◌++◌, if◌then◌else◌, ℤ, pos, length, ltb_ℤ,
}
use tradingview_go.Text.{Bytes, codes, concat}
use tradingview_go.Text.Decimal.{format_int}
use tradingview_go.Types.{Candle}
use tradingview_go.Ta.Float.{Float, ◌⊖◌, ◌⊗◌, ◌⊘◌, ◌<?◌, ◌≤?◌, ◌>?◌, ◌≥?◌, num, fixed}
use tradingview_go.Ta.Eval.{Eval, done, panics, ◌>>=◌}
use tradingview_go.Ta.Candles.{closes, hlc, last, last_elem, last_part}
use tradingview_go.Ta.Library.{Library, Annotation}
use tradingview_go.Ta.States.{rsi_state, macd_state, atr_state, ema_state, value_at}

-- `s[len(s)-k]`
unfoldable pub from_end : {F : Type 0} → ℕ → List F → Option F
from_end k s = elim (last_part s (pos k)) [
  | none ↦ none
  | some [] ↦ none
  | some (x ∷ rest) ↦ some x
]

-- `name + " [" + tf + "]"`
abbrev pub labelled : Bytes → Bytes → Bytes
labelled name tf = concat (name ∷ codes " [" ∷ tf ∷ codes "]" ∷ [])

abbrev pub one : Bytes → Bytes → Bytes → Eval (List Annotation)
one indicator value state =
    done (record { indicator = indicator; value = value; state = state } ∷ [])

-- `%v` of a slice of ints
unfoldable pub format_ints : List ℤ → Bytes
format_ints [] = []
format_ints (n ∷ []) = format_int n
format_ints (n ∷ m ∷ l) = format_int n ++ (codes " " ++ format_ints (m ∷ l))

module _ {F Extreme Line : Type 0} ⦃f : Float F⦄ (lib : Library F Extreme Line)
    (c : List (Candle F)) (tf : Bytes) where
  unfoldable pub enrich_rsi : ℤ → Eval (List Annotation)
  enrich_rsi period =
      let v = last (lib.rsi (closes c) period) in
      one (labelled (concat (codes "RSI(" ∷ format_int period ∷ codes ")" ∷ [])) tf) (fixed 1 v)
        (rsi_state v)

  unfoldable pub enrich_macd : ℤ → ℤ → ℤ → Eval (List Annotation)
  enrich_macd fast slow signal =
      let macd = last (lib.macd (closes c) fast slow) in
      let sig = last (lib.macd_signal (closes c) fast slow signal) in
      let hist = last (lib.macd_bars (closes c) fast slow signal) in
      one
        (labelled
          (concat (
            codes "MACD("
            ∷ format_int fast
            ∷ codes "/"
            ∷ format_int slow
            ∷ codes "/"
            ∷ format_int signal
            ∷ codes ")"
            ∷ []))
          tf)
        (concat (
          codes "MACD="
          ∷ fixed 4 macd
          ∷ codes " Signal="
          ∷ fixed 4 sig
          ∷ codes " Hist="
          ∷ fixed 4 hist
          ∷ []))
        (macd_state macd sig hist)

  -- The first loop of the EMA's Enrich.
  unfoldable pub ema_values : List ℤ → List (ℤ × F) → Eval (List (ℤ × F))
  ema_values [] vals = done vals
  ema_values (p ∷ periods) vals = do
    next ←
        if ltb_ℤ (pos (length (closes c))) p
        then done vals
        else do averages ← lib.ema (closes c) p; done ((p, last averages) ∷ vals)
    ema_values periods next

  -- The second loop.
  unfoldable pub ema_text : List (ℤ × F) → List ℤ → Bytes → Bytes
  ema_text vals [] text = text
  ema_text vals (p ∷ periods) text = ema_text vals periods (elim (value_at p vals) [
    | none ↦ text
    | some v ↦ concat (text ∷ codes " EMA" ∷ format_int p ∷ codes "=" ∷ fixed 4 v ∷ [])
  ])

  unfoldable pub enrich_ema : List ℤ → Eval (List Annotation)
  enrich_ema periods = elim (last_elem (closes c)) [
    | none ↦ panics
    | some price ↦ do
      vals ← ema_values periods []
      one (labelled (concat (codes "EMA([" ∷ format_ints periods ∷ codes "])" ∷ [])) tf)
          (ema_text vals periods (codes "Price=" ++ fixed 4 price)) (ema_state price vals)
  ]

  -- What the Bollinger bands' Enrich does with the last triple and the price.
  unfoldable pub bollinger_annotation : ℤ → F → F × F × F → F → Annotation
  bollinger_annotation period std_dev (first, middle, third) price =
      let swapped = third >? first in
      let upper = if swapped then third else first in
      let lower = if swapped then first else third in
      let width = (upper ⊖ lower) ⊘ middle ⊗ num 100 in
      record {
        indicator =
            labelled
              (concat (
                codes "Bollinger("
                ∷ format_int period
                ∷ codes ","
                ∷ fixed 1 std_dev
                ∷ codes ")"
                ∷ []))
              tf;
        value = concat (
            codes "Upper="
            ∷ fixed 4 upper
            ∷ codes " Mid="
            ∷ fixed 4 middle
            ∷ codes " Lower="
            ∷ fixed 4 lower
            ∷ codes " Width="
            ∷ fixed 1 width
            ∷ codes "%"
            ∷ []);
        state =
            if price ≥? upper
            then codes "At upper band (potential resistance/breakout)"
            else if price ≤? lower
            then codes "At lower band (potential support/bounce)"
            else if width <? num 5
            then codes "Squeeze (low volatility, expansion imminent)"
            else codes "Within bands";
      }

  unfoldable pub enrich_bollinger : ℤ → F → Eval (List Annotation)
  enrich_bollinger period std_dev = elim (last_elem (lib.bands (closes c) period std_dev)) [
    | none ↦ done []
    | some band ↦ elim (last_elem (closes c)) [
      | none ↦ panics
      | some price ↦ done (bollinger_annotation period std_dev band price ∷ [])
    ]
  ]

  unfoldable pub enrich_atr : ℤ → Eval (List Annotation)
  enrich_atr period =
      let v = last (lib.atr (hlc c) period) in
      elim (last_elem c) [
        | none ↦ panics
        | some b ↦
            let pct = (v ⊘ b.close) ⊗ num 100 in
            one (labelled (concat (codes "ATR(" ∷ format_int period ∷ codes ")" ∷ [])) tf)
              (concat (fixed 4 v ∷ codes " (" ∷ fixed 2 pct ∷ codes "% of price)" ∷ []))
              (atr_state pct)
      ]
