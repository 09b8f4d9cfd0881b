-- ===== src/Ta/Candles.antt =====
-- ta/ta.go: the slices of candles that the indicators take.
pub mod Swing
use tradingview_go.Common.{
  ℕ, zero, suc, ◌+◌, ◌-◌, Bool, true, false, Option, none, some, List, [], ◌∷◌, map, if◌then◌else◌,
  ℤ, pos, negsuc, length, drop, leb, ltb_ℤ,
}
use tradingview_go.Types.{Candle}
use tradingview_go.Ta.Float.{Float, num, ◌<?◌, ◌>?◌}

module _ {A : Type 0} where
  -- `s[len(s)-1]`; out of range where `s` is empty.
  unfoldable pub last_elem : List A → Option A
  last_elem [] = none
  last_elem (x ∷ []) = some x
  last_elem (x ∷ y ∷ s) = last_elem (y ∷ s)

  -- `s[len(s)-k:]`; out of range where `k` is negative or above the length.
  unfoldable pub last_part : List A → ℤ → Option (List A)
  last_part s (pos k) = if leb k (length s) then some (drop (length s - k) s) else none
  last_part s (negsuc k) = none

module _ {F : Type 0} where
  unfoldable pub closes : List (Candle F) → List F
  closes = map λ b. b.close

  unfoldable pub hlc : List (Candle F) → List (F × F × F)
  hlc = map λ b. (b.high, b.close, b.low)

  unfoldable pub close_volume : List (Candle F) → List (F × F)
  close_volume = map λ b. (b.close, b.volume)

  unfoldable pub volume_close : List (Candle F) → List (F × F)
  volume_close = map λ b. (b.volume, b.close)

module _ {F : Type 0} ⦃f : Float F⦄ where
  unfoldable pub last : List F → F
  last s = elim (last_elem s) [ none ↦ num 0 | some x ↦ x ]

  -- The loop of findSwing, from a high and a low.
  unfoldable pub swing_loop : List (Candle F) → F → F → F × F
  swing_loop [] high low = (high, low)
  swing_loop (b ∷ c) high low =
      swing_loop c (if b.high >? high then b.high else high) (if b.low <? low then b.low else low)

  -- The high and the low; out of range where there is no candle.
  unfoldable pub find_swing : List (Candle F) → Option (F × F)
  unfolding swing_loop
  find_swing [] = none
  find_swing (b ∷ c) = some (swing_loop (b ∷ c) b.high b.low)
