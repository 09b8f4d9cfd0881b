-- ===== src/Ta/Float.antt =====
-- What ta/ta.go does with a float64. Its values are a parameter, and so are its operations.
use tradingview_go.Common.{ℕ, Bool, ℤ, ◌≡◌, true, false}
use tradingview_go.Text.{Bytes}

pub record Float (F : Type 0) : Type 0 where
  -- `lit n k` is the constant n / 10^k as it is written in the source.
  pub lit : ℕ → ℕ → F
  pub neg : F → F
  pub add : F → F → F
  pub sub : F → F → F
  pub mul : F → F → F
  pub div : F → F → F
  pub lt : F → F → Bool
  pub le : F → F → Bool
  pub eq : F → F → Bool
  -- math.Abs, float64 of an int, and int of a float64
  pub abs : F → F
  pub of_int : ℤ → F
  pub to_int : F → ℤ
  -- `%.kf`
  pub format : ℕ → F → Bytes

infixl 65 ◌⊕◌ ◌⊖◌
infixl 70 ◌⊗◌ ◌⊘◌
infix 50 ◌<?◌ ◌≤?◌ ◌>?◌ ◌≥?◌ ◌=?◌
abbrev pub ◌⊕◌ : {F : Type 0} ⦃f : Float F⦄ → F → F → F
◌⊕◌ ⦃f⦄ = f.add

abbrev pub ◌⊖◌ : {F : Type 0} ⦃f : Float F⦄ → F → F → F
◌⊖◌ ⦃f⦄ = f.sub

abbrev pub ◌⊗◌ : {F : Type 0} ⦃f : Float F⦄ → F → F → F
◌⊗◌ ⦃f⦄ = f.mul

abbrev pub ◌⊘◌ : {F : Type 0} ⦃f : Float F⦄ → F → F → F
◌⊘◌ ⦃f⦄ = f.div

abbrev pub ◌<?◌ : {F : Type 0} ⦃f : Float F⦄ → F → F → Bool
◌<?◌ ⦃f⦄ = f.lt

abbrev pub ◌≤?◌ : {F : Type 0} ⦃f : Float F⦄ → F → F → Bool
◌≤?◌ ⦃f⦄ = f.le

abbrev pub ◌>?◌ : {F : Type 0} ⦃f : Float F⦄ → F → F → Bool
◌>?◌ ⦃f⦄ x y = f.lt y x

abbrev pub ◌≥?◌ : {F : Type 0} ⦃f : Float F⦄ → F → F → Bool
◌≥?◌ ⦃f⦄ x y = f.le y x

abbrev pub ◌=?◌ : {F : Type 0} ⦃f : Float F⦄ → F → F → Bool
◌=?◌ ⦃f⦄ = f.eq

-- An integer constant.
abbrev pub num : {F : Type 0} ⦃f : Float F⦄ → ℕ → F
num ⦃f⦄ n = f.lit n 0

abbrev pub fraction : {F : Type 0} ⦃f : Float F⦄ → ℕ → ℕ → F
fraction ⦃f⦄ = f.lit

abbrev pub minus : {F : Type 0} ⦃f : Float F⦄ → F → F
minus ⦃f⦄ = f.neg

abbrev pub fixed : {F : Type 0} ⦃f : Float F⦄ → ℕ → F → Bytes
fixed ⦃f⦄ = f.format

-- The order of the values that are not NaN.
pub record IsOrdered {F : Type 0} (f : Float F) : Type 0 where
  pub le_refl : (x : F) → f.le x x ≡ true
  pub le_trans : (x y z : F) → f.le x y ≡ true → f.le y z ≡ true → f.le x z ≡ true
  pub not_lt : (x y : F) → f.lt x y ≡ false → f.le y x ≡ true
  pub le_of_lt : (x y : F) → f.lt x y ≡ true → f.le x y ≡ true
