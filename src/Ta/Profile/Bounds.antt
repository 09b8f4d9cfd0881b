-- ===== src/Ta/Profile/Bounds.antt =====
-- The volume profile stays within its bins: no index is out of range, and its loops end.
use tradingview_go.Common.{
  ℕ, suc, ◌+◌, ◌≤◌, ◌<◌, ◌≡◌, refl, true, List, [], ◌∷◌, arith, pos, inl, inr, Bool-cases,
}
use tradingview_go.Types.{Candle}
use tradingview_go.Ta.Float.{Float, ◌⊕◌, ◌⊖◌, ◌⊗◌, ◌⊘◌, ◌=?◌, num, fraction}
use tradingview_go.Ta.Eval.{done}
use tradingview_go.Ta.Profile.{Area, zeros, price_range, peak, value_area, compute_profile}
use tradingview_go.Ta.Profile.Rounds.{length-zeros, get_at-some, fill-some, peak-lt, expand-done}

module _ {F : Type 0} ⦃f : Float F⦄ where
  -- The prices of a value area between two bins around a peak, in the bins of a price range.
  pub record Within (bins : ℕ) (low high : F) (area : Area F) : Type 0 where
    pub first : ℕ
    pub at : ℕ
    pub final : ℕ
    pub first_le : first ≤ at
    pub at_le : at ≤ final
    pub final_lt : final < bins
    pub val_is : area.val ≡ low ⊕ f.of_int (pos first) ⊗ ((high ⊖ low) ⊘ f.of_int (pos bins))
    pub poc_is :
        area.poc ≡ low ⊕ (f.of_int (pos at) ⊕ fraction 5 1) ⊗ ((high ⊖ low) ⊘ f.of_int (pos bins))
    pub vah_is : area.vah ≡ low ⊕ f.of_int (pos (final + 1)) ⊗ ((high ⊖ low) ⊘ f.of_int (pos bins))

  -- On at least one bin the volume profile ends without a panic: its loops take at most one round for
  -- each bin, no index is out of range, and the peak lies in the value area, which lies in the bins.
  -- The constant 0 equals itself.
  pub value_area-Within :
      (bins : ℕ) (c : List (Candle F)) (low high : F)
      → f.eq (f.lit 0 0) (f.lit 0 0) ≡ true
      → 0 < bins
      → (area : Area F) × (value_area bins c low high ≡ done area) × Within bins low high area
  unfolding value_area
  value_area-Within bins c low high z some_bins =
      let size = (high ⊖ low) ⊘ f.of_int (pos bins) in
      let (vol, total, filled, same) =
        fill-some bins low size c (zeros (num 0) bins) (num 0) some_bins
          (length-zeros (num 0) bins) in
      let at = peak vol 0 0 (num 0) in
      let in_range = peak-lt vol 0 0 (num 0) bins some_bins (omega (arith, same)) in
      let (acc, got) = get_at-some vol at (omega (arith, in_range, same)) in
      let (first, final, ended, l, h, b) =
        expand-done (suc bins) bins vol (total ⊗ fraction 70 2) acc at at at z same (omega arith)
          (omega arith) in_range (omega (arith, in_range)) in
      (
        record {
          poc = low ⊕ (f.of_int (pos at) ⊕ fraction 5 1) ⊗ size;
          vah = low ⊕ f.of_int (pos (final + 1)) ⊗ size;
          val = low ⊕ f.of_int (pos first) ⊗ size;
        },
        rw (filled, value_area) (rw got (rw ended refl)),
        record {
          first = first;
          at = at;
          final = final;
          first_le = l;
          at_le = h;
          final_lt = b;
          val_is = refl;
          poc_is = refl;
          vah_is = refl;
        },
      )

  pub compute_profile-done :
      (bins : ℕ) (c : List (Candle F))
      → f.eq (f.lit 0 0) (f.lit 0 0) ≡ true
      → 0 < bins
      → (area : Area F) × (compute_profile (pos bins) c ≡ done area)
  unfolding compute_profile
  compute_profile-done bins [] z h = (record { poc = num 0; vah = num 0; val = num 0 }, refl)
  compute_profile-done bins (b ∷ c) z h =
      let (low, high) = price_range (b ∷ c) b.low b.high in
      elim (Bool-cases (high =? low)) [
        | inl flat ↦ (record { poc = low; vah = high; val = low }, rw (flat, compute_profile) refl)
        | inr wide ↦
            let (area, e, within) = value_area-Within bins (b ∷ c) low high z h in
            (area, rw (wide, compute_profile) e)
      ]
