-- ===== src/Text.antt =====
-- Go strings as their bytes, with the parts of packages `strings` and `strconv` that the program
-- calls. Letters are ASCII: case mapping and trimming leave every byte above 127 as it is.
pub mod Decimal
pub mod Trim
pub mod Cut
pub mod Print
use Prim.Native.Char.{code}
use Prim.Native.String.{String}
use tradingview_go.Common.{
  ◌++◌, List, ℕ, zero, suc, ◌+◌, ◌-◌, ◌≡◌, refl, ◌↔◌, ◌⊎◌, inl, inr, Bool, true, false, ◌&&◌, ◌||◌,
  Option, none, some, List, [], ◌∷◌, ◌++◌, arith, ltb, leb, ◌==◌, ==_iff, ◌≤◌, length, Bool-cases,
  Option-cases, if◌then◌else◌,
}
use mathlib.Core.Option
use mathlib.Core.List.{map, reverse}

abbrev pub Bytes : Type 0
Bytes = List ℕ

-- The code points of a literal: its bytes, as every literal of the program is ASCII.
abbrev pub codes : String → Bytes
codes String.[] = []
codes (String.◌∷◌ c s) = code c ∷ codes s

-- Texts one after the other, as fmt.Sprintf sets them.
abbrev pub concat : List Bytes → Bytes
concat [] = []
concat (s ∷ texts) = s ++ concat texts

-- `s == t`
unfoldable pub beq : Bytes → Bytes → Bool
beq [] [] = true
beq [] (d ∷ t) = false
beq (c ∷ s) [] = false
beq (c ∷ s) (d ∷ t) = c == d && beq s t

pub beq_iff : (s t : Bytes) → (beq s t ≡ true) ↔ (s ≡ t)
unfolding beq
beq_iff [] [] = ground arith
beq_iff [] (d ∷ t) = ground arith
beq_iff (c ∷ s) [] = ground arith
beq_iff (c ∷ s) (d ∷ t) = ground (arith, beq_iff s t)

-- `strings.HasPrefix(s, p)`, the prefix first
unfoldable pub has_prefix : Bytes → Bytes → Bool
has_prefix [] s = true
has_prefix (c ∷ p) [] = false
has_prefix (c ∷ p) (d ∷ s) = c == d && has_prefix p s

-- `strings.Index(s, sub)`, the substring first; `none` for -1
unfoldable pub index_of : Bytes → Bytes → Option ℕ
unfolding has_prefix
index_of sub [] = if has_prefix sub [] then some 0 else none
index_of sub (c ∷ s) = if has_prefix sub (c ∷ s) then some 0 else Option.map suc (index_of sub s)

unfoldable pub to_upper_byte : ℕ → ℕ
to_upper_byte c = if leb b'a' c && leb c b'z' then c - 32 else c

unfoldable pub to_upper : Bytes → Bytes
unfolding to_upper_byte
to_upper = map to_upper_byte

-- `\t \n \v \f \r` and the space
unfoldable pub is_space : ℕ → Bool
is_space c = leb 9 c && leb c 13 || c == 32

unfoldable pub trim_left : Bytes → Bytes
unfolding is_space
trim_left [] = []
trim_left (c ∷ s) = if is_space c then trim_left s else c ∷ s

-- A byte in front of a text whose end is trimmed.
unfoldable pub keep : ℕ → Bytes → Bytes
unfolding is_space
keep c [] = if is_space c then [] else c ∷ []
keep c (d ∷ t) = c ∷ (d ∷ t)

unfoldable pub trim_right : Bytes → Bytes
trim_right [] = []
trim_right (c ∷ s) = keep c (trim_right s)

unfoldable pub trim_space : Bytes → Bytes
unfolding trim_left trim_right keep
trim_space s = trim_right (trim_left s)

has_prefix-length : (p s : Bytes) → has_prefix p s ≡ true → length p ≤ length s
unfolding has_prefix
has_prefix-length [] s h = omega arith
has_prefix-length (c ∷ p) [] h = absurd (ground arith)
has_prefix-length (c ∷ p) (d ∷ s) h = ground (arith, has_prefix-length p s)

-- A found text lies within the text it was found in.
pub index_of-length : (p s : Bytes) {i : ℕ} → index_of p s ≡ some i → i + length p ≤ length s
unfolding index_of
index_of-length p [] h = ground (arith, has_prefix-length p [])
index_of-length p (c ∷ s) {i} h = elim (Bool-cases (has_prefix p (c ∷ s))) [
  | inl hit ↦ ground (arith, has_prefix-length p (c ∷ s))
  | inr miss ↦ elim (Option-cases (index_of p s)) [
    | inl none_here ↦ ground arith
    | inr (j, found) ↦ ground (arith, index_of-length p s found)
  ]
]
