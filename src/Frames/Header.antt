-- ===== src/Frames/Header.antt =====
-- What `header` reads, and that each round shortens the text.
use tradingview_go.Common.{
  ℕ, ◌+◌, ◌≤◌, ◌≡◌, ◌≢◌, refl, some, [], ◌∷◌, ◌++◌, arith, ℤ, length, take, drop, All,
  length-append, drop-append, take-append, length-take_eq, take-append-drop, drop-add, >>=-eq-some,
  append_assoc,
}
use tradingview_go.Text.{Bytes, index_of, index_of-length}
use tradingview_go.Text.Decimal.{IsDigit, atoi}
use tradingview_go.Frames.{marker, header}

-- A byte that starts no marker.
abbrev pub IsPlain : ℕ → Type 0
IsPlain c = c ≢ b'~'

pub digits-IsPlain : (ds : Bytes) → All IsDigit ds → All IsPlain ds
digits-IsPlain [] h = tt
digits-IsPlain (c ∷ ds) h = (omega arith, digits-IsPlain ds h.1)

-- The length of a header stands before its second marker.
pub index_of-digits :
    (ds rest : Bytes) → All IsPlain ds → index_of marker (ds ++ (marker ++ rest)) ≡ some (length ds)
unfolding index_of
index_of-digits [] rest h = refl
index_of-digits (c ∷ ds) rest h = ground (arith, index_of-digits ds rest h.1)

-- A header whose number reads as `n`, whatever follows it.
pub header_lem :
    (ds rest : Bytes) {n : ℤ}
    → All IsPlain ds
    → atoi ds ≡ some n
    → header (marker ++ (ds ++ (marker ++ rest))) ≡ some (n, rest)
unfolding header index_of
header_lem ds rest h e = simp (index_of-digits ds rest h, take-append, drop-add, drop-append, e)

-- A header is a piece of the text in front of what it leaves, with two markers in it.
pub header_slice :
    (raw : Bytes) {n : ℤ} {rest : Bytes}
    → header raw ≡ some (n, rest)
    → (pre : Bytes) × (raw ≡ pre ++ rest) × (6 ≤ length pre)
unfolding header
header_slice raw e =
    let (start, found, e₁) = >>=-eq-some (index_of marker raw) _ e in
    let raw' : Bytes = drop (start + 3) raw in
    let (end, found', e₂) = >>=-eq-some (index_of marker raw') _ e₁ in
    let (k, num, e₃) = >>=-eq-some (atoi (take end raw')) _ e₂ in
    (
      take (start + 3) raw ++ take (end + 3) raw',
      cc (
        append_assoc (take (start + 3) raw) (take (end + 3) raw') (drop (end + 3) raw'),
        take-append-drop (start + 3) raw,
        take-append-drop (end + 3) raw',
      ),
      omega (
        arith,
        length-append (take (start + 3) raw) (take (end + 3) raw'),
        length-take_eq (start + 3) raw,
        length-take_eq (end + 3) raw',
        index_of-length marker raw found,
        index_of-length marker raw' found',
      ),
    )
