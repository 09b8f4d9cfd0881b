-- ===== src/Ta/Profile.antt =====
-- ta/ta.go, VolumeProfileEnricher.compute: the volume at each price, and the value area around its
-- peak.
pub mod Rounds
pub mod Bounds
use tradingview_go.Common.{
  ℕ, zero, suc, ◌+◌, ◌-◌, Bool, true, false, ◌&&◌, Option, none, some, List, [], ◌∷◌, if◌then◌else◌,
  ℤ, pos, negsuc, length, ltb, leb_ℤ, pos_part, sub_ℕ, ◌+ℤ◌, ◌-ℤ◌, get_or,
}
use tradingview_go.Types.{Candle}
use tradingview_go.Ta.Float.{Float, ◌⊕◌, ◌⊖◌, ◌⊗◌, ◌⊘◌, ◌<?◌, ◌>?◌, ◌≥?◌, ◌=?◌, num, fraction}
use tradingview_go.Ta.Eval.{Eval, done, panics, no_fuel, ◌>>=◌, or_panic}

-- poc, vah and val
pub record Area (F : Type 0) : Type 0 where
  pub poc : F
  pub vah : F
  pub val : F

-- `if endBin >= e.Bins { endBin = e.Bins - 1 }`
unfoldable pub end_bin : ℕ → ℤ → ℤ
end_bin bins e = if leb_ℤ (pos bins) e then sub_ℕ bins 1 else e

-- What one round of the loop of the value area does: it leaves the loop, takes the bin below or above
-- with its volume, or does nothing.
pub data Round (F : Type 0) : Type 0 where
  stop stay : Round F
  lower higher : F → Round F

module _ {F : Type 0} where
  unfoldable pub zeros : F → ℕ → List F
  zeros z zero = []
  zeros z (suc n) = z ∷ zeros z n

  -- `volAt[i]`; out of range where there is nothing.
  unfoldable pub get_at : List F → ℕ → Option F
  get_at [] i = none
  get_at (x ∷ vol) zero = some x
  get_at (x ∷ vol) (suc i) = get_at vol i

module _ {F : Type 0} ⦃f : Float F⦄ where
  -- The loop over the candles for their lowest and highest price.
  unfoldable pub price_range : List (Candle F) → F → F → F × F
  price_range [] low high = (low, high)
  price_range (b ∷ c) low high =
      price_range c (if b.low <? low then b.low else low) (if b.high >? high then b.high else high)

  -- `volAt[i] += v`
  unfoldable pub add_at : List F → ℕ → F → Option (List F)
  add_at [] i v = none
  add_at (x ∷ vol) zero v = some ((x ⊕ v) ∷ vol)
  add_at (x ∷ vol) (suc i) v = elim (add_at vol i v) [ none ↦ none | some vol' ↦ some (x ∷ vol') ]

  -- The loop over the bins of a candle, with the rounds that are left.
  unfoldable pub spread : ℕ → ℕ → F → List F → F → Option (List F × F)
  spread zero i v vol total = some (vol, total)
  spread (suc n) i v vol total = elim (add_at vol i v) [
    | none ↦ none
    | some vol' ↦ spread n (i + 1) v vol' (total ⊕ v)
  ]

  -- The loop over the candles. A start below 0 becomes 0; the rounds of the inner loop are
  -- `endBin-startBin+1`, and none if that is negative.
  unfoldable pub fill : ℕ → F → F → List (Candle F) → List F → F → Option (List F × F)
  fill bins low size [] vol total = some (vol, total)
  fill bins low size (b ∷ c) vol total =
      let start = pos_part (f.to_int ((b.low ⊖ low) ⊘ size)) in
      let end = end_bin bins (f.to_int ((b.high ⊖ low) ⊘ size)) in
      let count = end -ℤ pos start +ℤ pos 1 in
      elim (spread (pos_part count) start (b.volume ⊘ f.of_int count) vol total) [
        | none ↦ none
        | some (vol', total') ↦ fill bins low size c vol' total'
      ]

  -- The loop for the peak: the index of the next bin, and the peak so far.
  unfoldable pub peak : List F → ℕ → ℕ → F → ℕ
  peak [] i best most = best
  peak (v ∷ vol) i best most =
      peak vol (i + 1) (if v >? most then i else best) (if v >? most then v else most)

  unfoldable pub choose : Bool → Bool → F → F → Round F
  choose can_low can_high low_vol high_vol =
      if (low_vol =? num 0) && (high_vol =? num 0)
      then stop
      else if (high_vol ≥? low_vol) && can_high
      then higher high_vol
      else if can_low
      then lower low_vol
      else if can_high
      then higher high_vol
      else stay

  -- `expandLow >= 0` is `0 < low`.
  unfoldable pub round : ℕ → List F → ℕ → ℕ → Option (Round F)
  round bins vol low high =
      let can_low = ltb 0 low in
      let can_high = ltb (high + 1) bins in
      elim (if can_low then get_at vol (low - 1) else some (num 0)) [
        | none ↦ none
        | some low_vol ↦ elim (if can_high then get_at vol (high + 1) else some (num 0)) [
          | none ↦ none
          | some high_vol ↦ some (choose can_low can_high low_vol high_vol)
        ]
      ]

  -- The loop of the value area: the bins between which it lies.
  unfoldable pub expand : ℕ → ℕ → List F → F → F → ℕ → ℕ → Eval (ℕ × ℕ)
  expand zero bins vol target acc low high = no_fuel
  expand (suc fuel) bins vol target acc low high = elim (acc <? target) [
    | false ↦ done (low, high)
    | true ↦ elim (round bins vol low high) [
      | none ↦ panics
      | some stop ↦ done (low, high)
      | some stay ↦ expand fuel bins vol target acc low high
      | some (lower v) ↦ expand fuel bins vol target (acc ⊕ v) (low - 1) high
      | some (higher v) ↦ expand fuel bins vol target (acc ⊕ v) low (high + 1)
    ]
  ]

  -- compute behind its two early returns. Each round takes a bin, so `bins` bounds the rounds.
  unfoldable pub value_area : ℕ → List (Candle F) → F → F → Eval (Area F)
  value_area bins c low high =
      let size = (high ⊖ low) ⊘ f.of_int (pos bins) in
      elim (fill bins low size c (zeros (num 0) bins) (num 0)) [
        | none ↦ panics
        | some (vol, total) ↦
            let at = peak vol 0 0 (num 0) in
            elim (get_at vol at) [
              | none ↦ panics
              | some acc ↦ elim (expand (suc bins) bins vol (total ⊗ fraction 70 2) acc at at) [
                | panics ↦ panics
                | no_fuel ↦ no_fuel
                | done (first, final) ↦ done (record {
                  poc = low ⊕ (f.of_int (pos at) ⊕ fraction 5 1) ⊗ size;
                  vah = low ⊕ f.of_int (pos (final + 1)) ⊗ size;
                  val = low ⊕ f.of_int (pos first) ⊗ size;
                })
              ]
            ]
      ]

  -- compute; the result is in the order poc, vah, val. A negative size of a slice panics.
  unfoldable pub compute_profile : ℤ → List (Candle F) → Eval (Area F)
  unfolding price_range
  compute_profile bins [] = done (record { poc = num 0; vah = num 0; val = num 0 })
  compute_profile bins (b ∷ c) =
      let (low, high) = price_range (b ∷ c) b.low b.high in
      elim (high =? low) [
        | true ↦ done (record { poc = low; vah = high; val = low })
        | false ↦ elim bins [ negsuc n ↦ panics | pos n ↦ value_area n (b ∷ c) low high ]
      ]
