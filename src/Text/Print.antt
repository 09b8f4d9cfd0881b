-- ===== src/Text/Print.antt =====
-- Prints of ints: the bytes they hold, and that they tell ints apart.
use tradingview_go.Text.Cut.{Lacks}
use tradingview_go.Common.{
  ℕ, suc, ◌≤◌, ◌<◌, ◌≡◌, sym, ap, ◌∙◌, some, [], ◌∷◌, arith, All, ℤ, pos, negsuc,
}
use tradingview_go.Text.{Bytes}
use tradingview_go.Text.Decimal.{
  format_nat, format_int, max_int, atoi, atoi-format_nat, atoi-format_int, format_nat-IsDigit,
  IsDigit,
}

-- A 64-bit int.
abbrev pub IsInt : ℤ → Type 0
IsInt (pos n) = n ≤ max_int
IsInt (negsuc n) = n ≤ max_int

module _ (sep : ℕ) (high : b'9' < sep) where
  digits-Lacks : (s : Bytes) → All IsDigit s → Lacks sep s
  digits-Lacks [] h = tt
  digits-Lacks (c ∷ s) h = (omega arith, digits-Lacks s h.1)

  pub format_int-Lacks : (n : ℤ) → Lacks sep (format_int n)
  unfolding format_int
  format_int-Lacks (pos n) = digits-Lacks (format_nat n) (format_nat-IsDigit n)
  format_int-Lacks (negsuc n) =
      (omega arith, digits-Lacks (format_nat (suc n)) (format_nat-IsDigit (suc n)))

atoi_format : (n : ℤ) → IsInt n → atoi (format_int n) ≡ some n
atoi_format (pos n) h = unfold format_int in atoi-format_nat n h
atoi_format (negsuc n) h = atoi-format_int n h

-- A 64-bit int is read off its print.
pub format_int-injective : (m n : ℤ) → IsInt m → IsInt n → format_int m ≡ format_int n → m ≡ n
format_int-injective m n hm hn e =
    let same : some m ≡ some n = sym (atoi_format m hm) ∙ (ap atoi e ∙ atoi_format n hn) in
    ground arith
