-- ===== src/Ta/Candles/Swing.antt =====
-- The swing high and low of a window, and where the accesses to it are in range.
use mathlib.Core.Path.{subst}
use mathlib.Core.Option.{some-injective}
use tradingview_go.Common.{
  ◌-◌, ◌≡◌, ◌≢◌, refl, sym, ap, ◌⊎◌, inl, inr, true, false, some, List, [], ◌∷◌, arith,
  if◌then◌else◌, ℤ, pos, negsuc, length, drop, leb, ltb_ℤ, All, Bool-cases, length-drop,
}
use tradingview_go.Types.{Candle}
use tradingview_go.Ta.Float.{Float, IsOrdered, ◌<?◌, ◌>?◌}
use tradingview_go.Ta.Candles.{last_elem, last_part, swing_loop, find_swing}

module _ {A : Type 0} where
  pub last_elem-some : (s : List A) → s ≢ [] → (x : A) × (last_elem s ≡ some x)
  unfolding last_elem
  last_elem-some [] h = absurd (h refl)
  last_elem-some (x ∷ []) h = (x, refl)
  last_elem-some (x ∷ y ∷ s) h = last_elem-some (y ∷ s) (λ e. ground arith)

  -- A part of a positive length at most that of the slice is in range and not empty.
  pub last_part-some :
      (s : List A) (k : ℤ)
      → ltb_ℤ (pos 0) k ≡ true
      → ltb_ℤ (pos (length s)) k ≡ false
      → (part : List A) × (last_part s k ≡ some part) × (part ≢ [])
  unfolding last_part
  last_part-some s (negsuc k) some_part within = absurd (ground arith)
  last_part-some s (pos k) some_part within =
      let fits : leb k (length s) ≡ true = ground arith in
      (
        drop (length s - k) s,
        rw fits refl,
        λ e. ground (arith, ap (length {A = A}) e, length-drop {A = A} (length s - k) s),
      )

module _ {F : Type 0} ⦃f : Float F⦄ where
  pub find_swing-some :
      (c : List (Candle F)) → c ≢ [] → (swing : F × F) × (find_swing c ≡ some swing)
  unfolding find_swing
  find_swing-some [] h = absurd (h refl)
  find_swing-some (b ∷ c) h = (swing_loop (b ∷ c) b.high b.low, refl)

  -- Some candle has this high, and some candle this low.
  abbrev pub HasHigh : F → List (Candle F) → Type 0
  HasHigh high [] = ⊥
  HasHigh high (b ∷ c) = (b.high ≡ high) ⊎ HasHigh high c

  abbrev pub HasLow : F → List (Candle F) → Type 0
  HasLow low [] = ⊥
  HasLow low (b ∷ c) = (b.low ≡ low) ⊎ HasLow low c

  -- All candles lie between them.
  abbrev pub Between : F → F → List (Candle F) → Type 0
  Between high low = All (λ b. (f.le b.high high ≡ true) × (f.le low b.low ≡ true))

  module _ (o : IsOrdered f) where
    swing_loop-outside :
        (c : List (Candle F)) (high low : F)
        → (f.le high (swing_loop c high low).0 ≡ true)
          × (f.le (swing_loop c high low).1 low ≡ true)
          × Between (swing_loop c high low).0 (swing_loop c high low).1 c
    unfolding swing_loop
    swing_loop-outside [] high low = (o.le_refl high, o.le_refl low, tt)
    swing_loop-outside (b ∷ c) high low =
        let high' = if b.high >? high then b.high else high in
        let low' = if b.low <? low then b.low else low in
        let (up, down, rest) = swing_loop-outside c high' low' in
        (
          o.le_trans high high' _ (grown high b.high).0 up,
          o.le_trans _ low' low down (shrunk low b.low).0,
          (
            (
              o.le_trans b.high high' _ (grown high b.high).1 up,
              o.le_trans _ low' b.low down (shrunk low b.low).1,
            ),
            rest,
          ),
        )
      where
        grown :
            (x y : F)
            → (f.le x (if y >? x then y else x) ≡ true) × (f.le y (if y >? x then y else x) ≡ true)
        grown x y = elim (Bool-cases (f.lt x y)) [
          | inl more ↦ rw more (o.le_of_lt x y more, o.le_refl y)
          | inr not_more ↦ rw not_more (o.le_refl x, o.not_lt x y not_more)
        ]

        shrunk :
            (x y : F)
            → (f.le (if y <? x then y else x) x ≡ true) × (f.le (if y <? x then y else x) y ≡ true)
        shrunk x y = elim (Bool-cases (f.lt y x)) [
          | inl less ↦ rw less (o.le_of_lt y x less, o.le_refl y)
          | inr not_less ↦ rw not_less (o.le_refl x, o.not_lt y x not_less)
        ]

  swing_loop-attained :
      (c : List (Candle F)) (high low : F)
      → (((swing_loop c high low).0 ≡ high) ⊎ HasHigh (swing_loop c high low).0 c)
        × (((swing_loop c high low).1 ≡ low) ⊎ HasLow (swing_loop c high low).1 c)
  unfolding swing_loop
  swing_loop-attained [] high low = (inl refl, inl refl)
  swing_loop-attained (b ∷ c) high low =
      let high' = if b.high >? high then b.high else high in
      let low' = if b.low <? low then b.low else low in
      let (up, down) = swing_loop-attained c high' low' in
      (
        elim up [
          | inr later ↦ inr (inr later)
          | inl here ↦ elim (Bool-cases (b.high >? high)) [
            | inl more ↦ inr (inl (ground arith))
            | inr not_more ↦ inl (ground arith)
          ]
        ],
        elim down [
          | inr later ↦ inr (inr later)
          | inl here ↦ elim (Bool-cases (b.low <? low)) [
            | inl less ↦ inr (inl (ground arith))
            | inr not_less ↦ inl (ground arith)
          ]
        ],
      )

  -- The swing of a window is the least range that holds its candles: every high is at most the swing
  -- high and every low at least the swing low, and both occur. The prices are ordered; none is NaN.
  pub find_swing-Between :
      (c : List (Candle F)) {high low : F}
      → IsOrdered f
      → find_swing c ≡ some (high, low)
      → Between high low c × HasHigh high c × HasLow low c
  unfolding find_swing
  find_swing-Between [] o e = absurd (ground arith)
  find_swing-Between (b ∷ c) {high} {low} o e =
      let swing = swing_loop (b ∷ c) b.high b.low in
      let is : swing ≡ (high, low) = some-injective _ _ e in
      let (up, down, all) = swing_loop-outside o (b ∷ c) b.high b.low in
      let (highest, lowest) = swing_loop-attained (b ∷ c) b.high b.low in
      subst (λ p. Between p.0 p.1 (b ∷ c) × HasHigh p.0 (b ∷ c) × HasLow p.1 (b ∷ c)) is
        (
          all,
          elim highest [ inl here ↦ inl (sym here) | inr there ↦ there ],
          elim lowest [ inl here ↦ inl (sym here) | inr there ↦ there ],
        )
