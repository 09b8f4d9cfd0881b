-- ===== src/Text/Trim.antt =====
-- Trimming and upper-casing undo nothing of one another: doing both a second time changes nothing.
use mathlib.Core.Path.{◌≡⟨◌⟩◌, ◌∎}
use tradingview_go.Common.{
  sym, append-nil, true, ◌++◌, All, ℕ, ◌≡◌, refl, ap, ◌∙◌, false, [], ◌∷◌, arith, Bool-cases, inl,
  inr,
}
use tradingview_go.Text.{
  keep, Bytes, to_upper_byte, to_upper, is_space, trim_left, trim_right, trim_space,
}

to_upper_byte_idem : (c : ℕ) → to_upper_byte (to_upper_byte c) ≡ to_upper_byte c
unfolding to_upper_byte
to_upper_byte_idem c = ground arith

is_space-to_upper_byte : (c : ℕ) → is_space (to_upper_byte c) ≡ is_space c
unfolding to_upper_byte is_space
is_space-to_upper_byte c = ground arith

to_upper_idem : (s : Bytes) → to_upper (to_upper s) ≡ to_upper s
unfolding to_upper
to_upper_idem [] = refl
to_upper_idem (c ∷ s) = ground (arith, to_upper_byte_idem c, to_upper_idem s)

trim_left-to_upper : (s : Bytes) → trim_left (to_upper s) ≡ to_upper (trim_left s)
unfolding trim_left to_upper
trim_left-to_upper [] = refl
trim_left-to_upper (c ∷ s) = ground (arith, is_space-to_upper_byte c, trim_left-to_upper s)

keep-to_upper : (c : ℕ) (t : Bytes) → keep (to_upper_byte c) (to_upper t) ≡ to_upper (keep c t)
unfolding keep to_upper
keep-to_upper c [] = ground (arith, is_space-to_upper_byte c)
keep-to_upper c (d ∷ t) = refl

to_upper-cons :
    (c : ℕ) (s : Bytes)
    → trim_right (to_upper (c ∷ s)) ≡ keep (to_upper_byte c) (trim_right (to_upper s))
unfolding to_upper trim_right
to_upper-cons c s = refl

trim_right-to_upper : (s : Bytes) → trim_right (to_upper s) ≡ to_upper (trim_right s)
unfolding trim_right
trim_right-to_upper [] = unfold to_upper in refl
trim_right-to_upper (c ∷ s) =
    trim_right (to_upper (c ∷ s))
    ≡⟨ to_upper-cons c s ⟩ keep (to_upper_byte c) (trim_right (to_upper s))
    ≡⟨ ap (keep (to_upper_byte c)) (trim_right-to_upper s) ⟩
      keep (to_upper_byte c) (to_upper (trim_right s))
    ≡⟨ keep-to_upper c (trim_right s) ⟩ to_upper (trim_right (c ∷ s)) ∎

trim_right-keep : (c : ℕ) (t : Bytes) → trim_right t ≡ t → trim_right (keep c t) ≡ keep c t
unfolding trim_right keep
trim_right-keep c [] h = ground arith
trim_right-keep c (d ∷ t) h = ap (keep c) h

trim_right_idem : (s : Bytes) → trim_right (trim_right s) ≡ trim_right s
unfolding trim_right
trim_right_idem [] = refl
trim_right_idem (c ∷ s) = trim_right-keep c (trim_right s) (trim_right_idem s)

-- The text does not begin with a space.
abbrev StartsPlain : Bytes → Type 0
StartsPlain [] = Unit
StartsPlain (c ∷ s) = is_space c ≡ false

trim_left-StartsPlain : (s : Bytes) → StartsPlain (trim_left s)
unfolding trim_left
trim_left-StartsPlain [] = tt
trim_left-StartsPlain (c ∷ s) = elim (Bool-cases (is_space c)) [
  | inl space ↦ rw (space, trim_left) (trim_left-StartsPlain s)
  | inr plain ↦ rw (plain, trim_left) plain
]

trim_left_of_StartsPlain : (s : Bytes) → StartsPlain s → trim_left s ≡ s
unfolding trim_left
trim_left_of_StartsPlain [] h = refl
trim_left_of_StartsPlain (c ∷ s) h = rw h

keep-StartsPlain : (c : ℕ) (t : Bytes) → is_space c ≡ false → StartsPlain (keep c t)
unfolding keep
keep-StartsPlain c [] h = rw h h
keep-StartsPlain c (d ∷ t) h = h

trim_right-StartsPlain : (s : Bytes) → StartsPlain s → StartsPlain (trim_right s)
unfolding trim_right
trim_right-StartsPlain [] h = tt
trim_right-StartsPlain (c ∷ s) h = keep-StartsPlain c (trim_right s) h

pub trim_space_idem : (s : Bytes) → trim_space (trim_space s) ≡ trim_space s
unfolding trim_space
trim_space_idem s =
    ap trim_right (
      trim_left_of_StartsPlain (trim_right (trim_left s))
        (trim_right-StartsPlain (trim_left s) (trim_left-StartsPlain s)))
    ∙ trim_right_idem (trim_left s)

trim_space-to_upper : (s : Bytes) → trim_space (to_upper s) ≡ to_upper (trim_space s)
unfolding trim_space
trim_space-to_upper s = ap trim_right (trim_left-to_upper s) ∙ trim_right-to_upper (trim_left s)

-- Trimming and upper-casing a text that is already so changes nothing.
pub upper-trim_idem :
    (s : Bytes) → to_upper (trim_space (to_upper (trim_space s))) ≡ to_upper (trim_space s)
upper-trim_idem s =
    ap to_upper (trim_space-to_upper (trim_space s) ∙ ap to_upper (trim_space_idem s))
    ∙ to_upper_idem (trim_space s)

-- Spaces alone.
abbrev pub IsBlank : Bytes → Type 0
IsBlank = All (λ c. is_space c ≡ true)

trim_left-blank : (l s : Bytes) → IsBlank l → trim_left (l ++ s) ≡ trim_left s
unfolding trim_left
trim_left-blank [] s h = refl
trim_left-blank (c ∷ l) s (b, h) = rw b (trim_left-blank l s h)

trim_right-nil : (r : Bytes) → IsBlank r → trim_right r ≡ []
unfolding trim_right keep
trim_right-nil [] h = refl
trim_right-nil (c ∷ r) (b, h) = rw (trim_right-nil r h) (rw b refl)

trim_right-blank : (s r : Bytes) → IsBlank r → trim_right (s ++ r) ≡ trim_right s
unfolding trim_right
trim_right-blank [] r h = trim_right-nil r h
trim_right-blank (c ∷ s) r h = ap (keep c) (trim_right-blank s r h)

trim_space-blank : (s r : Bytes) → IsBlank r → trim_space (s ++ r) ≡ trim_space s
unfolding trim_space trim_left
trim_space-blank [] r h = ap trim_right (ap trim_left (sym (append-nil r)) ∙ trim_left-blank r [] h)
trim_space-blank (c ∷ s) r h = elim (Bool-cases (is_space c)) [
  | inl space ↦ rw space (trim_space-blank s r h)
  | inr plain ↦ rw plain (trim_right-blank (c ∷ s) r h)
]

-- Spaces around a text are trimmed away.
pub trim_space-pad :
    (l s r : Bytes) → IsBlank l → IsBlank r → trim_space (l ++ (s ++ r)) ≡ trim_space s
unfolding trim_space
trim_space-pad l s r hl hr = ap trim_right (trim_left-blank l (s ++ r) hl) ∙ trim_space-blank s r hr
