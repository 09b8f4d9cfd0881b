-- ===== src/Text/Decimal.antt =====
-- Decimal numbers: `fmt`'s %d on an int, `strconv.Atoi`, and the proof that one reads the other.
use mathlib.Core.Option
use tradingview_go.Common.{
  ℕ, zero, suc, ◌+◌, ◌-◌, ◌*◌, ◌/◌, ◌%◌, ◌^◌, ◌≤◌, ◌<◌, ◌≡◌, ◌≢◌, refl, Bool, ◌&&◌, Option, none,
  some, [], ◌∷◌, arith, ltb, leb, ◌==◌, if◌then◌else◌, ◌>>=◌, ℤ, pos, negsuc, All,
}
use tradingview_go.Text.{Bytes}

-- The digits of `n` in front of `out`; the fuel `n + 1` is enough.
digits : ℕ → ℕ → Bytes → Bytes
digits zero n out = out
digits (suc fuel) n out =
    let rest = digits fuel (n / 10) ((b'0' + n % 10) ∷ out) in
    if ltb n 10 then (b'0' + n) ∷ out else rest

unfoldable pub format_nat : ℕ → Bytes
unfolding digits
format_nat n = digits (suc n) n []

unfoldable pub format_int : ℤ → Bytes
format_int (pos n) = format_nat n
format_int (negsuc n) = b'-' ∷ format_nat (suc n)

is_digit : ℕ → Bool
is_digit c = leb b'0' c && leb c b'9'

-- The value that digits spell behind `n`; `none` if a byte is no digit.
value : ℕ → Bytes → Option ℕ
unfolding is_digit
value n [] = some n
value n (c ∷ s) = if is_digit c then value (n * 10 + (c - b'0')) s else none

-- The number that an unsigned text spells, if it is not empty and at most `limit`.
unsigned : ℕ → Bytes → Option ℕ
unfolding value
unsigned limit [] = none
unsigned limit (c ∷ s) = value 0 (c ∷ s) >>= λ n. if leb n limit then some n else none

abbrev pub max_int : ℕ
max_int = 2 ^ 63 - 1

-- -n for n above 0, and 0 for 0
minus : ℕ → ℤ
minus zero = pos 0
minus (suc n) = negsuc n

-- `strconv.Atoi` with 64-bit ints: a sign, then decimal digits, and an error out of range.
unfoldable pub atoi : Bytes → Option ℤ
unfolding unsigned minus
atoi [] = none
atoi (c ∷ s) =
    if c == b'-'
    then Option.map minus (unsigned (max_int + 1) s)
    else if c == b'+'
    then Option.map pos (unsigned max_int s)
    else Option.map pos (unsigned max_int (c ∷ s))

-- A decimal digit.
abbrev pub IsDigit : ℕ → Type 0
IsDigit c = (b'0' ≤ c) × (c ≤ b'9')

digits-value : (fuel n : ℕ) (out : Bytes) → n < fuel → value 0 (digits fuel n out) ≡ value n out
unfolding digits value is_digit
digits-value zero n out h = elim h [ ]
digits-value (suc fuel) n out h = ground (arith, digits-value fuel (n / 10) ((b'0' + n % 10) ∷ out))

digits-IsDigit : (fuel n : ℕ) (out : Bytes) → All IsDigit out → All IsDigit (digits fuel n out)
unfolding digits
digits-IsDigit zero n out h = h
digits-IsDigit (suc fuel) n out h =
    ground (arith, digits-IsDigit fuel (n / 10) ((b'0' + n % 10) ∷ out) (omega arith, h))

digits-ne-nil : (fuel n : ℕ) (out : Bytes) → 0 < fuel → digits fuel n out ≢ []
unfolding digits
digits-ne-nil zero n out h = elim h [ ]
digits-ne-nil (suc zero) n out h = ground arith
digits-ne-nil (suc (suc fuel)) n out h =
    ground (arith, digits-ne-nil (suc fuel) (n / 10) ((b'0' + n % 10) ∷ out))

pub format_nat-IsDigit : (n : ℕ) → All IsDigit (format_nat n)
unfolding format_nat
format_nat-IsDigit n = digits-IsDigit (suc n) n [] tt

pub format_nat-ne-nil : (n : ℕ) → format_nat n ≢ []
unfolding format_nat
format_nat-ne-nil n = digits-ne-nil (suc n) n [] (omega arith)

value-format_nat : (n : ℕ) → value 0 (format_nat n) ≡ some n
unfolding format_nat value
value-format_nat n = digits-value (suc n) n [] (omega arith)

-- On a text that begins with a digit no sign is read.
atoi_of_digits :
    (s : Bytes) (n : ℕ)
    → All IsDigit s
    → s ≢ []
    → value 0 s ≡ some n
    → n ≤ max_int
    → atoi s ≡ some (pos n)
unfolding atoi
atoi_of_digits [] n d ne v h = absurd (ne refl)
atoi_of_digits (c ∷ s) n d ne v h = ground arith

-- A non-negative int is read back from its decimal print.
pub atoi-format_nat : (n : ℕ) → n ≤ max_int → atoi (format_nat n) ≡ some (pos n)
atoi-format_nat n h =
    atoi_of_digits (format_nat n) n (format_nat-IsDigit n) (format_nat-ne-nil n)
      (value-format_nat n) h

unsigned_of_value :
    (limit n : ℕ) (s : Bytes) → s ≢ [] → value 0 s ≡ some n → n ≤ limit → unsigned limit s ≡ some n
unfolding unsigned
unsigned_of_value limit n [] ne v h = absurd (ne refl)
unsigned_of_value limit n (c ∷ s) ne v h = ground arith

-- So is a negative one.
pub atoi-format_int : (n : ℕ) → n ≤ max_int → atoi (format_int (negsuc n)) ≡ some (negsuc n)
unfolding atoi format_int
atoi-format_int n h = rw (
    unsigned_of_value (max_int + 1) (suc n) (format_nat (suc n)) (format_nat-ne-nil (suc n))
      (value-format_nat (suc n)) (omega arith))
