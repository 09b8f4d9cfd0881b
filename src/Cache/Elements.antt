-- ===== src/Cache/Elements.antt =====
-- The list of elements seen through its keys, where ids and keys are each held once.
use tradingview_go.Common.{
  ℕ, zero, suc, ◌≤◌, ◌<◌, ◌≡◌, refl, sym, ◌∙◌, Option, none, some, List, [], ◌∷◌, arith,
  if◌then◌else◌, length, take,
}
use tradingview_go.Text.{Bytes, beq, beq_iff}
use tradingview_go.Types.{ChartData}
use tradingview_go.Cache.{Element, find_id, remove_id, move_to_front, write_id, back}

module _ {F : Type 0} where
  unfoldable pub find_key : Bytes → List (Element F) → Option (Element F)
  find_key k [] = none
  find_key k (e ∷ l) = if beq e.key k then some e else find_key k l

  unfoldable pub remove_key : Bytes → List (Element F) → List (Element F)
  remove_key k [] = []
  remove_key k (e ∷ l) = if beq e.key k then l else e ∷ remove_key k l

  -- No two elements have one id, and no two have one key.
  abbrev pub Distinct : List (Element F) → Type 0
  Distinct [] = Unit
  Distinct (e ∷ l) = (find_id e.id l ≡ none) × (find_key e.key l ≡ none) × Distinct l

  abbrev pub Below : ℕ → List (Element F) → Type 0
  Below n [] = Unit
  Below n (e ∷ l) = (e.id < n) × Below n l

  pub find_key-key :
      (k : Bytes) (l : List (Element F)) {e : Element F} → find_key k l ≡ some e → e.key ≡ k
  unfolding find_key
  find_key-key k [] h = absurd (ground arith)
  find_key-key k (x ∷ l) {e} h = ground (arith, find_key-key k l {e = e}, beq_iff x.key k)

  -- An element that is found by its key is found by its id.
  pub find_id-find_key :
      (k : Bytes) (l : List (Element F)) {e : Element F}
      → Distinct l
      → find_key k l ≡ some e
      → find_id e.id l ≡ some e
  unfolding find_key find_id
  find_id-find_key k [] d h = absurd (ground arith)
  find_id-find_key k (x ∷ l) {e} d h = ground (arith, find_id-find_key k l {e = e} d.2)

  pub remove_id-find_key :
      (k : Bytes) (l : List (Element F)) {e : Element F}
      → Distinct l
      → find_key k l ≡ some e
      → remove_id e.id l ≡ remove_key k l
  unfolding find_key remove_id remove_key
  remove_id-find_key k [] d h = refl
  remove_id-find_key k (x ∷ l) {e} d h =
      ground (arith, remove_id-find_key k l {e = e} d.2, find_id-find_key k l {e = e} d.2)

  pub remove_key_absent :
      (k : Bytes) (l : List (Element F)) → find_key k l ≡ none → remove_key k l ≡ l
  unfolding find_key remove_key
  remove_key_absent k [] h = refl
  remove_key_absent k (x ∷ l) h = ground (arith, remove_key_absent k l)

  -- Another key is found as before; the removed one is gone.
  pub find_key-remove_key :
      (k j : Bytes) (l : List (Element F))
      → Distinct l
      → find_key j (remove_key k l) ≡ (if beq k j then none else find_key j l)
  unfolding find_key remove_key
  find_key-remove_key k j [] d = ground arith
  find_key-remove_key k j (x ∷ l) d =
      ground (arith, find_key-remove_key k j l d.2, beq_iff x.key k, beq_iff k j, beq_iff x.key j)

  find_id-remove_key :
      (i : ℕ) (k : Bytes) (l : List (Element F))
      → find_id i l ≡ none
      → find_id i (remove_key k l) ≡ none
  unfolding find_id remove_key
  find_id-remove_key i k [] h = refl
  find_id-remove_key i k (x ∷ l) h = ground (arith, find_id-remove_key i k l)

  pub remove_key-Distinct :
      (k : Bytes) (l : List (Element F)) → Distinct l → Distinct (remove_key k l)
  unfolding remove_key
  remove_key-Distinct k [] d = tt
  remove_key-Distinct k (x ∷ l) d = ground (
    arith,
    remove_key-Distinct k l d.2,
    find_id-remove_key x.id k l,
    find_key-remove_key k x.key l d.2,
  )

  pub remove_key-Below :
      (n : ℕ) (k : Bytes) (l : List (Element F)) → Below n l → Below n (remove_key k l)
  unfolding remove_key
  remove_key-Below n k [] b = tt
  remove_key-Below n k (x ∷ l) b = ground (arith, remove_key-Below n k l b.1)

  pub length-remove_key :
      (k : Bytes) (l : List (Element F)) {e : Element F}
      → find_key k l ≡ some e
      → suc (length (remove_key k l)) ≡ length l
  unfolding remove_key find_key
  length-remove_key k [] h = absurd (ground arith)
  length-remove_key k (x ∷ l) {e} h = ground (arith, length-remove_key k l {e = e})

  pub length-remove_key-le : (k : Bytes) (l : List (Element F)) → length (remove_key k l) ≤ length l
  unfolding remove_key
  length-remove_key-le k [] = omega arith
  length-remove_key-le k (x ∷ l) = ground (arith, length-remove_key-le k l)

  -- The ids of removed elements are gone.
  pub find_id-remove_key_self :
      (k : Bytes) (l : List (Element F)) {e : Element F}
      → Distinct l
      → find_key k l ≡ some e
      → find_id e.id (remove_key k l) ≡ none
  unfolding find_key find_id remove_key
  find_id-remove_key_self k [] d h = refl
  find_id-remove_key_self k (x ∷ l) {e} d h =
      ground (arith, find_id-remove_key_self k l {e = e} d.2, find_id-find_key k l {e = e} d.2)

  pub find_id_above : (n : ℕ) (l : List (Element F)) → Below n l → find_id n l ≡ none
  unfolding find_id
  find_id_above n [] b = refl
  find_id_above n (x ∷ l) b = ground (arith, find_id_above n l b.1)

  pub Below-suc : (n : ℕ) (l : List (Element F)) → Below n l → Below (suc n) l
  Below-suc n [] b = tt
  Below-suc n (x ∷ l) b = (omega arith, Below-suc n l b.1)

  pub find_key-Below :
      (n : ℕ) (k : Bytes) (l : List (Element F)) {e : Element F}
      → Below n l
      → find_key k l ≡ some e
      → e.id < n
  unfolding find_key
  find_key-Below n k [] b h = absurd (ground arith)
  find_key-Below n k (x ∷ l) {e} b h = ground (arith, find_key-Below n k l {e = e} b.1)

  -- MoveToFront, seen through the keys.
  pub move_to_front-find_key :
      (k : Bytes) (l : List (Element F)) {e : Element F}
      → Distinct l
      → find_key k l ≡ some e
      → move_to_front e.id l ≡ e ∷ remove_key k l
  unfolding move_to_front
  move_to_front-find_key k l {e} d h =
      ground (arith, find_id-find_key k l {e = e} d, remove_id-find_key k l {e = e} d)

  find_id-write_id :
      (i : ℕ) (d : ChartData F) (x : ℕ) (l : List (Element F)) {e : Element F}
      → find_id i l ≡ some e
      → find_id i (write_id i d x l) ≡ some (record e { chart = d; expires_at = x })
  unfolding find_id write_id
  find_id-write_id i d x [] h = absurd (ground arith)
  find_id-write_id i d x (y ∷ l) {e} h = ground (arith, find_id-write_id i d x l {e = e})

  remove_id-write_id :
      (i : ℕ) (d : ChartData F) (x : ℕ) (l : List (Element F))
      → remove_id i (write_id i d x l) ≡ remove_id i l
  unfolding remove_id write_id
  remove_id-write_id i d x [] = refl
  remove_id-write_id i d x (y ∷ l) = ground (arith, remove_id-write_id i d x l)

  -- A write through the pointer and a move to the front, seen through the keys.
  pub move_to_front-write_id :
      (k : Bytes) (d : ChartData F) (x : ℕ) (l : List (Element F)) {e : Element F}
      → Distinct l
      → find_key k l ≡ some e
      → move_to_front e.id (write_id e.id d x l)
        ≡ record e { chart = d; expires_at = x } ∷ remove_key k l
  unfolding move_to_front
  move_to_front-write_id k d x l {e} dl h = ground (
    arith,
    find_id-write_id e.id d x l {e = e} (find_id-find_key k l {e = e} dl h),
    remove_id-write_id e.id d x l,
    remove_id-find_key k l {e = e} dl h,
  )

  back-last : (x : Element F) (l : List (Element F)) → (old : Element F) × (back (x ∷ l) ≡ some old)
  unfolding back
  back-last x [] = (x, refl)
  back-last x (y ∷ l) = let (old, h) = back-last y l in (old, rw h)

  back-cons : (x y : Element F) (l : List (Element F)) → back (x ∷ (y ∷ l)) ≡ back (y ∷ l)
  unfolding back
  back-cons x y l = let (old, h) = back-last y l in unfolded old h
    where
      unfolded : (old : Element F) → back (y ∷ l) ≡ some old → back (x ∷ (y ∷ l)) ≡ back (y ∷ l)
      unfolded old h = rw (h, back)

  -- The last element, seen through the keys.
  pub back-find_key :
      (l : List (Element F)) {old : Element F}
      → Distinct l
      → back l ≡ some old
      → find_key old.key l ≡ some old
  unfolding find_key
  back-find_key [] d h = absurd (unfold back in ground arith)
  back-find_key (x ∷ []) {old} d h =
      let same : x ≡ old = unfold back in ground arith in ground (arith, beq_iff x.key old.key)
  back-find_key (x ∷ (y ∷ l)) {old} d h =
      let h' : back (y ∷ l) ≡ some old = sym (back-cons x y l) ∙ h in
      let found = back-find_key (y ∷ l) d.2 h' in ground (arith, beq_iff x.key old.key)

  pub remove_key-back :
      (n : ℕ) (l : List (Element F)) {old : Element F}
      → Distinct l
      → length l ≡ suc n
      → back l ≡ some old
      → remove_key old.key l ≡ take n l
  unfolding remove_key
  remove_key-back n [] d e h = absurd (unfold back in ground arith)
  remove_key-back n (x ∷ []) {old} d e h =
      let same : x ≡ old = unfold back in ground arith in
      let zero_left : n ≡ 0 = omega arith in rw zero_left (ground (arith, beq_iff x.key old.key))
  remove_key-back zero (x ∷ (y ∷ l)) {old} d e h = absurd (omega arith)
  remove_key-back (suc n) (x ∷ (y ∷ l)) {old} d e h =
      let h' : back (y ∷ l) ≡ some old = sym (back-cons x y l) ∙ h in
      let found = back-find_key (y ∷ l) d.2 h' in
      ground
        (arith, beq_iff x.key old.key, remove_key-back n (y ∷ l) {old = old} d.2 (omega arith) h')
