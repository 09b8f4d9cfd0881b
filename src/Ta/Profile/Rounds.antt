-- ===== src/Ta/Profile/Rounds.antt =====
-- The loops of the volume profile: no index is out of range, and they end.
use tradingview_go.Common.{
  ℕ, zero, suc, ◌+◌, ◌-◌, ◌≤◌, ◌<◌, ◌≡◌, refl, ◌∙◌, ap, Bool, true, false, ◌&&◌, some, List, [],
  ◌∷◌, arith, if◌then◌else◌, ℤ, pos, negsuc, length, ltb, pos_part, ◌+ℤ◌, ◌-ℤ◌, ◌⊎◌, inl, inr,
  Bool-cases,
}
use tradingview_go.Types.{Candle}
use tradingview_go.Ta.Float.{Float, ◌⊕◌, ◌⊖◌, ◌⊘◌, ◌<?◌, ◌>?◌, ◌≥?◌, ◌=?◌, num}
use tradingview_go.Ta.Eval.{done}
use tradingview_go.Ta.Profile.{
  Round, stop, stay, lower, higher, end_bin, zeros, get_at, add_at, spread, fill, peak, choose,
  round, expand,
}

module _ {F : Type 0} where
  pub length-zeros : (z : F) (n : ℕ) → length (zeros z n) ≡ n
  unfolding zeros
  length-zeros z zero = refl
  length-zeros z (suc n) = ap suc (length-zeros z n)

  pub get_at-some : (vol : List F) (i : ℕ) → i < length vol → (v : F) × (get_at vol i ≡ some v)
  unfolding get_at
  get_at-some [] i h = elim h [ ]
  get_at-some (x ∷ vol) zero h = (x, refl)
  get_at-some (x ∷ vol) (suc i) h = get_at-some vol i (omega arith)

Round-cases :
    {F : Type 0} (r : Round F)
    → (r ≡ stop) ⊎ (r ≡ stay) ⊎ ((v : F) × (r ≡ lower v)) ⊎ ((v : F) × (r ≡ higher v))
Round-cases stop = inl refl
Round-cases stay = inr (inl refl)
Round-cases (lower v) = inr (inr (inl (v, refl)))
Round-cases (higher v) = inr (inr (inr (v, refl)))

end_bin_rounds :
    (bins start : ℕ) (e : ℤ)
    → 0 < bins
    → pos_part (end_bin bins e -ℤ pos start +ℤ pos 1) ≤ bins - start
unfolding end_bin
end_bin_rounds bins start (pos e) h = ground arith
end_bin_rounds bins start (negsuc e) h = ground arith

module _ {F : Type 0} ⦃f : Float F⦄ where
  add_at-some :
      (vol : List F) (i : ℕ) (v : F)
      → i < length vol
      → (vol' : List F) × (add_at vol i v ≡ some vol') × (length vol' ≡ length vol)
  unfolding add_at
  add_at-some [] i v h = elim h [ ]
  add_at-some (x ∷ vol) zero v h = ((x ⊕ v) ∷ vol, refl, refl)
  add_at-some (x ∷ vol) (suc i) v h =
      let (vol', e, same) = add_at-some vol i v (omega arith) in (x ∷ vol', rw e refl, ap suc same)

  spread-some :
      (n i : ℕ) (v : F) (vol : List F) (total : F)
      → n ≤ length vol - i
      → (vol' : List F) × (total' : F) × (spread n i v vol total ≡ some (vol', total'))
        × (length vol' ≡ length vol)
  unfolding spread
  spread-some zero i v vol total h = (vol, total, refl, refl)
  spread-some (suc n) i v vol total h =
      let (vol', e, same) = add_at-some vol i v (omega arith) in
      let (vol'', total', e', same') =
        spread-some n (i + 1) v vol' (total ⊕ v) (omega (arith, same)) in
      (vol'', total', rw (e, spread) e', same' ∙ same)

  pub fill-some :
      (bins : ℕ) (low size : F) (c : List (Candle F)) (vol : List F) (total : F)
      → 0 < bins
      → length vol ≡ bins
      → (vol' : List F) × (total' : F) × (fill bins low size c vol total ≡ some (vol', total'))
        × (length vol' ≡ bins)
  unfolding fill
  fill-some bins low size [] vol total h same = (vol, total, refl, same)
  fill-some bins low size (b ∷ c) vol total h same =
      let start = pos_part (f.to_int ((b.low ⊖ low) ⊘ size)) in
      let end = end_bin bins (f.to_int ((b.high ⊖ low) ⊘ size)) in
      let count = end -ℤ pos start +ℤ pos 1 in
      let few = end_bin_rounds bins start (f.to_int ((b.high ⊖ low) ⊘ size)) h in
      let (vol', total', e, same') =
        spread-some (pos_part count) start (b.volume ⊘ f.of_int count) vol total
          (omega (arith, few, same)) in
      let (vol'', total'', e', same'') = fill-some bins low size c vol' total' h (same' ∙ same) in
      (vol'', total'', rw (e, fill) e', same'')

  pub peak-lt :
      (vol : List F) (i best : ℕ) (most : F) (bound : ℕ)
      → best < bound
      → i + length vol ≤ bound
      → peak vol i best most < bound
  unfolding peak
  peak-lt [] i best most bound h k = h
  peak-lt (v ∷ vol) i best most bound h k =
      peak-lt vol (i + 1) (if v >? most then i else best) (if v >? most then v else most) bound
        (ground arith) (omega arith)

  -- The rounds that leave the bins in range and get on.
  abbrev Moves : ℕ → ℕ → ℕ → Round F → Type 0
  Moves bins low high stop = Unit
  Moves bins low high stay = ⊥
  Moves bins low high (lower v) = 0 < low
  Moves bins low high (higher v) = high + 1 < bins

  choose-Moves :
      (bins low high : ℕ) (low_vol high_vol : F)
      → f.eq (f.lit 0 0) (f.lit 0 0) ≡ true
      → (ltb 0 low ≡ false → low_vol ≡ num 0)
      → (ltb (high + 1) bins ≡ false → high_vol ≡ num 0)
      → Moves bins low high (choose (ltb 0 low) (ltb (high + 1) bins) low_vol high_vol)
  unfolding choose
  choose-Moves bins low high low_vol high_vol z lowest highest =
      elim (Bool-cases ((low_vol =? num 0) && (high_vol =? num 0))) [
        | inl empty ↦ rw empty tt
        | inr some_volume ↦ elim (Bool-cases (ltb (high + 1) bins)) [
          | inl can_high ↦ elim (Bool-cases (ltb 0 low)) [
            | inl can_low ↦ elim (Bool-cases (high_vol ≥? low_vol)) [
              | inl up ↦ rw (some_volume, up, can_high) (ground arith)
              | inr down ↦ rw (some_volume, down, can_low) (ground arith)
            ]
            | inr no_low ↦ elim (Bool-cases (high_vol ≥? low_vol)) [
              | inl up ↦ rw (some_volume, up, can_high) (ground arith)
              | inr down ↦ rw (some_volume, down, no_low, can_high) (ground arith)
            ]
          ]
          | inr no_high ↦ elim (Bool-cases (ltb 0 low)) [
            | inl can_low ↦ elim (Bool-cases (high_vol ≥? low_vol)) [
              | inl up ↦ rw (some_volume, up, no_high, can_low) (ground arith)
              | inr down ↦ rw (some_volume, down, can_low) (ground arith)
            ]
            | inr no_low ↦ absurd (ground (arith, lowest no_low, highest no_high))
          ]
        ]
      ]

  -- A volume that is read behind a guard.
  guarded-some :
      (can : Bool) (vol : List F) (i : ℕ)
      → (can ≡ true → i < length vol)
      → (v : F) × ((if can then get_at vol i else some (num 0)) ≡ some v)
        × (can ≡ false → v ≡ num 0)
  guarded-some true vol i h = let (v, e) = get_at-some vol i (h refl) in (v, e, λ no. ground arith)
  guarded-some false vol i h = (num 0, refl, λ no. refl)

  -- A round in range is in range and gets on.
  round-Moves :
      (bins : ℕ) (vol : List F) (low high : ℕ)
      → f.eq (f.lit 0 0) (f.lit 0 0) ≡ true
      → length vol ≡ bins
      → low ≤ high
      → high < bins
      → (r : Round F) × (round bins vol low high ≡ some r) × Moves bins low high r
  unfolding round
  round-Moves bins vol low high z same le lt =
      let (low_vol, e, lowest) =
        guarded-some (ltb 0 low) vol (low - 1) (λ can. ground (arith, same)) in
      let (high_vol, e', highest) =
        guarded-some (ltb (high + 1) bins) vol (high + 1) (λ can. ground (arith, same)) in
      (
        choose (ltb 0 low) (ltb (high + 1) bins) low_vol high_vol,
        rw (e, round) (rw (e', round) refl),
        choose-Moves bins low high low_vol high_vol z lowest highest,
      )

  pub expand-done :
      (fuel bins : ℕ) (vol : List F) (target acc : F) (at low high : ℕ)
      → f.eq (f.lit 0 0) (f.lit 0 0) ≡ true
      → length vol ≡ bins
      → low ≤ at
      → at ≤ high
      → high < bins
      → low + (bins - high) ≤ fuel
      → (first final : ℕ) × (expand fuel bins vol target acc low high ≡ done (first, final))
        × (first ≤ at)
        × (at ≤ final)
        × (final < bins)
  unfolding expand
  expand-done zero bins vol target acc at low high z same l h b few = absurd (omega arith)
  expand-done (suc fuel) bins vol target acc at low high z same l h b few =
      elim (Bool-cases (acc <? target)) [
        | inr reached ↦ (low, high, rw (reached, expand) refl, l, h, b)
        | inl more ↦
            let (r, e, moves) = round-Moves bins vol low high z same (omega arith) b in
            elim (Round-cases r) [
              | inl end ↦ (low, high, rw (more, expand) (rw (e, end) refl), l, h, b)
              | inr (inl still) ↦ absurd (rw still at moves)
              | inr (inr (inl (v, down))) ↦
                  let can : 0 < low = rw down at moves in
                  let (first, final, d, left, right, final_lt) =
                    expand-done fuel bins vol target (acc ⊕ v) at (low - 1) high z same
                      (omega arith) h b (omega arith) in
                  (first, final, rw (more, expand) (rw (e, down) d), left, right, final_lt)
              | inr (inr (inr (v, up))) ↦
                  let can : high + 1 < bins = rw up at moves in
                  let (first, final, d, left, right, final_lt) =
                    expand-done fuel bins vol target (acc ⊕ v) at low (high + 1) z same l
                      (omega arith) (omega arith) (omega arith) in
                  (first, final, rw (more, expand) (rw (e, up) d), left, right, final_lt)
            ]
      ]
