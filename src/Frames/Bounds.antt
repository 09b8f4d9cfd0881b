-- ===== src/Frames/Bounds.antt =====
-- The slices of a round of decodeFrames: where they are in range.
use tradingview_go.Common.{
  ℕ, zero, suc, ◌-◌, ◌≤◌, ◌<◌, ◌≡◌, inl, inr, Bool, ◌&&◌, some, [], ◌∷◌, arith, ltb, ◌==◌,
  if◌then◌else◌, pos, negsuc, length, get_or, take, drop, Bool-cases,
}
use tradingview_go.Text.{Bytes, codes, has_prefix}
use tradingview_go.Frames.{
  stop, part, crash, slice_to, slice_from, byte_at, less_one, is_over, cut, body,
}

cut-part : (n : ℕ) (raw : Bytes) → n ≤ length raw → cut (pos n) raw ≡ part (take n raw) (drop n raw)
unfolding cut slice_to slice_from
cut-part n raw h = ground arith

is_over-some :
    (n : ℕ) (raw : Bytes)
    → n ≤ length raw
    → is_over (pos n) raw
      ≡ some (ltb 0 n && get_or raw (n - 1) 0 == b'~' && has_prefix (codes "m~") (drop n raw))
unfolding is_over slice_from byte_at
is_over-some zero raw h = ground arith
is_over-some (suc n) raw h = ground arith

less_one-pos : (n : ℕ) → 0 < n → less_one (pos n) ≡ pos (n - 1)
less_one-pos n h = ground arith

-- Behind the test of the length, a length that is not negative is in range.
pub body-pos :
    (json_valid : Bytes → Bool) (n : ℕ) (raw : Bytes)
    → body json_valid (pos n) raw ≡ (
        if ltb (length raw) n
        then stop (if json_valid raw then raw ∷ [] else [])
        else if ltb 0 n && get_or raw (n - 1) 0 == b'~' && has_prefix (codes "m~") (drop n raw)
        then part (take (n - 1) raw) (drop (n - 1) raw)
        else part (take n raw) (drop n raw))
unfolding body
body-pos json_valid n raw = elim (Bool-cases (ltb (length raw) n)) [
  | inl long ↦ ground arith
  | inr fits ↦
      let over = is_over-some n raw (ground arith) in
      elim (Bool-cases
        (ltb 0 n && get_or raw (n - 1) 0 == b'~' && has_prefix (codes "m~") (drop n raw))) [
          | inr exact ↦ ground (arith, over, cut-part n raw (ground arith))
          | inl one ↦
              let some_byte : 0 < n = ground arith in
              ground (arith, over, less_one-pos n some_byte, cut-part (n - 1) raw (ground arith))
        ]
]

-- A negative length passes both tests and reaches `raw[:n]`, which panics.
pub body-negsuc :
    (json_valid : Bytes → Bool) (k : ℕ) (raw : Bytes) → body json_valid (negsuc k) raw ≡ crash
unfolding body is_over cut slice_to
body-negsuc json_valid k raw = ground arith
