-- ===== src/Ta/States.antt =====
-- ta/ta.go: the states that an indicator's value stands for. A switch is a chain of tests.
pub mod Averages
use tradingview_go.Common.{
  ℕ, Bool, true, false, ◌&&◌, ◌||◌, Option, none, some, List, [], ◌∷◌, if◌then◌else◌, ℤ, pos, ◌==◌,
  pos_part, neg_part,
}
use tradingview_go.Text.{Bytes, codes}
use tradingview_go.Ta.Float.{Float, ◌<?◌, ◌≤?◌, ◌>?◌, ◌≥?◌, num, fraction, minus}

module _ {F : Type 0} ⦃f : Float F⦄ where
  unfoldable pub rsi_state : F → Bytes
  rsi_state v =
      if v ≥? num 70
      then codes "Overbought"
      else if v ≥? num 60
      then codes "Approaching overbought"
      else if v ≤? num 30
      then codes "Oversold"
      else if v ≤? num 40
      then codes "Approaching oversold"
      else codes "Neutral"

  -- The switch of the MACD's Enrich.
  unfoldable pub macd_state : F → F → F → Bytes
  macd_state macd sig hist =
      if (macd >? sig) && (hist >? num 0)
      then codes "Bullish (MACD above signal, positive histogram)"
      else if (macd <? sig) && (hist <? num 0)
      then codes "Bearish (MACD below signal, negative histogram)"
      else if (macd >? sig) && (hist <? num 0)
      then codes "Bearish momentum weakening"
      else if (macd <? sig) && (hist >? num 0)
      then codes "Bullish momentum weakening"
      else codes "Neutral"

  unfoldable pub atr_state : F → Bytes
  atr_state pct =
      if pct >? num 5
      then codes "Extremely volatile"
      else if pct >? num 3
      then codes "High volatility"
      else if pct >? fraction 15 1
      then codes "Moderate volatility"
      else codes "Low volatility"

  -- The switch of the ADX's Enrich.
  unfoldable pub adx_state : F → Bytes
  adx_state v =
      if v ≥? num 50
      then codes "Extremely strong trend"
      else if v ≥? num 25
      then codes "Strong trend"
      else if v ≥? num 20
      then codes "Emerging trend"
      else codes "No trend"

  -- The switch of the stochastic RSI's Enrich.
  unfoldable pub stoch_rsi_state : F → F → Bytes
  stoch_rsi_state k d =
      if (k >? num 80) && (d >? num 80)
      then codes "Overbought"
      else if (k <? num 20) && (d <? num 20)
      then codes "Oversold"
      else if (k >? d) && (k <? num 30)
      then codes "Bullish crossover from oversold"
      else if (k <? d) && (k >? num 70)
      then codes "Bearish crossover from overbought"
      else codes "Neutral"

  unfoldable pub sr_state : F → F → Bytes
  sr_state dist_sup dist_res =
      if dist_sup <? num 1
      then codes "Near support (potential bounce zone)"
      else if dist_res <? num 1
      then codes "Near resistance (potential rejection zone)"
      else if dist_sup <? dist_res
      then codes "Closer to support"
      else codes "Closer to resistance"

  unfoldable pub fib_state : F → F → F → F → F → F → F → Bytes
  fib_state price high low r382 r500 r618 r786 =
      if price ≥? high
      then codes "Above swing high (price discovery, extension targets active: 1.272, 1.618)"
      else if price ≥? r382
      then codes "Shallow pullback (above 0.382 retrace, strong trend intact)"
      else if price ≥? r500
      then codes "Mid pullback (between 0.382 and 0.5 retrace)"
      else if price ≥? r618
      then codes "Deep pullback (golden pocket 0.5-0.618, high-probability bounce zone)"
      else if price ≥? r786
      then codes "Very deep pullback (between 0.618 and 0.786, trend weakening)"
      else if price ≤? low
      then codes "Below swing low (structure broken)"
      else codes "Below 0.786 retrace (trend likely failing)"

  unfoldable pub context_state : F → F → F → Bytes
  context_state from_high from_low velocity =
      if from_high >? minus (num 2)
      then (if velocity >? num 100
          then codes "At/near range high in parabolic uptrend, price discovery imminent"
          else codes "At/near range high, breakout or rejection imminent")
      else if from_high >? minus (num 10)
      then (if velocity >? num 50
          then codes "Pullback within strong uptrend, high-probability continuation zone"
          else codes "Near range high, testing resistance")
      else if from_low <? num 5
      then codes "At/near range low, capitulation or accumulation zone"
      else if from_high <? minus (num 50)
      then codes "Deep in range from highs, bear market structure or accumulation"
      else codes "Mid-range, no edge from positional context alone"

-- A `map[int]float64`: the entries, the last write first.
module _ {F : Type 0} where
  unfoldable pub value_at : ℤ → List (ℤ × F) → Option F
  value_at k [] = none
  value_at k ((j, v) ∷ vals) =
      if (pos_part j == pos_part k) && (neg_part j == neg_part k) then some v else value_at k vals

module _ {F : Type 0} ⦃f : Float F⦄ where
  -- `vals[k]`, 0 where there is none, and its `ok`
  unfoldable pub value_or_zero : Option F → F
  value_or_zero none = num 0
  value_or_zero (some v) = v

  unfoldable pub has_value : Option F → Bool
  has_value none = false
  has_value (some v) = true

  -- The last `if` of emaState, behind the tests on the 200 bars.
  unfoldable pub short_ema_state : F → Option F → Option F → Bytes
  unfolding value_or_zero has_value
  short_ema_state price v20 v50 =
      let ema20 = value_or_zero v20 in
      let ema50 = value_or_zero v50 in
      if has_value v20 && has_value v50
      then (if (price >? ema20) && (ema20 >? ema50)
          then codes "Bullish structure (price > 20 > 50)"
          else if (price <? ema20) && (ema20 <? ema50)
          then codes "Bearish structure (price < 20 < 50)"
          else if (price >? ema20) && (price <? ema50)
          then codes "Recovery attempt (above 20, below 50)"
          else codes "Mixed/Transitional")
      else codes "Mixed/Transitional"

  unfoldable pub ema_state : F → List (ℤ × F) → Bytes
  unfolding value_or_zero has_value
  ema_state price vals =
      let v20 = value_at (pos 20) vals in
      let v50 = value_at (pos 50) vals in
      let v200 = value_at (pos 200) vals in
      let ema20 = value_or_zero v20 in
      let ema50 = value_or_zero v50 in
      let ema200 = value_or_zero v200 in
      let rest = short_ema_state price v20 v50 in
      if has_value v200
      then (if (price >? ema200) && (has_value v20 && (ema20 >? ema50))
          then codes "Strong bullish (price above 200, 20>50)"
          else if (price <? ema200) && (has_value v20 && (ema20 <? ema50))
          then codes "Strong bearish (price below 200, 20<50)"
          else rest)
      else rest
