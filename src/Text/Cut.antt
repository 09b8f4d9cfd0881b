-- ===== src/Text/Cut.antt =====
-- A text cut at its last separator, and at every separator.
use tradingview_go.Common.{
  ◌⊎◌, ℕ, ◌≡◌, ◌≢◌, refl, ◌∙◌, ap, List, [], ◌∷◌, ◌++◌, arith, All, ◌==◌, if◌then◌else◌, inl, inr,
}
use tradingview_go.Text.{Bytes}

-- The text does not hold the byte.
abbrev pub Lacks : ℕ → Bytes → Type 0
Lacks sep = All (λ c. c ≢ sep)

-- strings.Split with a separator of one byte.
unfoldable pub split : ℕ → Bytes → List Bytes
split sep [] = [] ∷ []
split sep (c ∷ s) = elim (split sep s) [
  | [] ↦ []
  | p ∷ ps ↦ if c == sep then [] ∷ (p ∷ ps) else (c ∷ p) ∷ ps
]

-- Texts with the separator in between.
abbrev pub join : ℕ → List Bytes → Bytes
join sep [] = []
join sep (p ∷ []) = p
join sep (p ∷ q ∷ ps) = p ++ sep ∷ join sep (q ∷ ps)

module _ (sep : ℕ) where
  no_sep : (s x y : Bytes) → Lacks sep x → x ≡ s ++ sep ∷ y → ⊥
  no_sep [] [] y h e = ground arith
  no_sep [] (c ∷ x) y h e = ground arith
  no_sep (d ∷ s) [] y h e = ground arith
  no_sep (d ∷ s) (c ∷ x) y h e = no_sep s x y h.1 (ground arith)

  -- A text is cut at its last separator in one way.
  pub last_sep :
      (s t x y : Bytes)
      → Lacks sep x
      → Lacks sep y
      → s ++ sep ∷ x ≡ t ++ sep ∷ y
      → (s ≡ t) × (x ≡ y)
  last_sep [] [] x y hx hy e = (refl, ground arith)
  last_sep [] (d ∷ t) x y hx hy e = absurd (no_sep t x y hx (ground arith))
  last_sep (c ∷ s) [] x y hx hy e = absurd (no_sep s y x hy (ground arith))
  last_sep (c ∷ s) (d ∷ t) x y hx hy e =
      let (same, rest) = last_sep s t x y hx hy (ground arith) in (ground arith, rest)

  split_lacking : (p : Bytes) → Lacks sep p → split sep p ≡ p ∷ []
  unfolding split
  split_lacking [] h = refl
  split_lacking (c ∷ p) (ne, h) = rw (split_lacking p h) (ground arith)

  list_cases : (l : List Bytes) → (l ≡ []) ⊎ ((p : Bytes) × (ps : List Bytes) × (l ≡ p ∷ ps))
  list_cases [] = inl refl
  list_cases (p ∷ ps) = inr (p, ps, refl)

  split-ne-nil : (s : Bytes) → split sep s ≢ []
  unfolding split
  split-ne-nil [] e = ground arith
  split-ne-nil (c ∷ s) e = elim (list_cases (split sep s)) [
    | inl none_here ↦ split-ne-nil s none_here
    | inr (p, ps, found) ↦ ground arith
  ]

  split_at : (p rest : Bytes) → Lacks sep p → split sep (p ++ sep ∷ rest) ≡ p ∷ split sep rest
  unfolding split
  split_at [] rest h = elim (list_cases (split sep rest)) [
    | inl none_here ↦ absurd (split-ne-nil rest none_here)
    | inr (p, ps, found) ↦ ground arith
  ]
  split_at (c ∷ p) rest (d, h) = rw (split_at p rest h) (ground arith)

  -- Splitting finds the parts that were joined.
  pub split-join :
      (p : Bytes) (ps : List Bytes)
      → All (Lacks sep) (p ∷ ps)
      → split sep (join sep (p ∷ ps)) ≡ p ∷ ps
  split-join p [] (h, rest) = split_lacking p h
  split-join p (q ∷ ps) (h, rest) =
      split_at p (join sep (q ∷ ps)) h ∙ ap (λ l. p ∷ l) (split-join q ps rest)
