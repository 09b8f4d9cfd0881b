-- ===== src/Frames/Panics.antt =====
-- The one way in which decodeFrames panics: a header with a negative length.
use tradingview_go.Common.{
  ℕ, zero, suc, ◌≤◌, ◌<◌, ◌≡◌, refl, ◌∙◌, Bool, false, some, List, [], ◌∷◌, ◌++◌, arith, negsuc,
  length, length-append, All,
}
use tradingview_go.Text.{Bytes, codes, has_prefix}
use tradingview_go.Text.Decimal.{
  format_nat, format_int, max_int, format_nat-IsDigit, atoi-format_int,
}
use tradingview_go.Frames.{
  marker, frame, header, round, part, crash, panics, decode_loop, decode_frames,
}
use tradingview_go.Frames.Bounds.{body-negsuc}
use tradingview_go.Frames.Header.{header_lem, IsPlain, digits-IsPlain}
use tradingview_go.Frames.RoundTrip.{loop-part, round-headed, body_exact, frame-append}

-- Frames in front of a tail.
abbrev pub stream : List Bytes → Bytes → Bytes
stream [] tail = tail
stream (b ∷ bs) tail = frame b ++ stream bs tail

-- A header with the length -(n + 1).
abbrev pub negative : ℕ → Bytes → Bytes
negative n rest = marker ++ (format_int (negsuc n) ++ (marker ++ rest))

format_int-IsPlain : (n : ℕ) → All IsPlain (format_int (negsuc n))
unfolding format_int
format_int-IsPlain n =
    (omega arith, digits-IsPlain (format_nat (suc n)) (format_nat-IsDigit (suc n)))

round-negative :
    (json_valid : Bytes → Bool) (n : ℕ) (rest : Bytes)
    → n ≤ max_int
    → round json_valid (negative n rest) ≡ crash
unfolding round
round-negative json_valid n rest h =
    let e : header (negative n rest) ≡ some (negsuc n, rest) =
      header_lem (format_int (negsuc n)) rest (format_int-IsPlain n) (atoi-format_int n h) in
    rw (e, round) (body-negsuc json_valid n rest)

module _ (json_valid : Bytes → Bool) (n : ℕ) (rest : Bytes) (fits : n ≤ max_int) where
  stream_no_m : (bs : List Bytes) → has_prefix (codes "m~") (stream bs (negative n rest)) ≡ false
  unfolding has_prefix frame
  stream_no_m [] = refl
  stream_no_m (b ∷ bs) = refl

  loop-crash :
      (fuel c : ℕ) (raw : Bytes) (out : List Bytes)
      → round json_valid (c ∷ raw) ≡ crash
      → decode_loop json_valid (suc fuel) (c ∷ raw) out ≡ panics
  unfolding decode_loop
  loop-crash fuel c raw out e = rw (e, decode_loop)

  loop-negative :
      (fuel : ℕ) (bs out : List Bytes)
      → length bs < fuel
      → All (λ b. length b ≤ max_int) bs
      → decode_loop json_valid fuel (stream bs (negative n rest)) out ≡ panics
  loop-negative zero bs out h k = elim h [ ]
  loop-negative (suc fuel) [] out h k =
      loop-crash fuel _ _ out (round-negative json_valid n rest fits)
  loop-negative (suc fuel) (b ∷ bs) out h k =
      let tail = stream bs (negative n rest) in
      rw (frame-append b tail) (
        loop-part json_valid fuel _ _ b tail out (
          round-headed json_valid (length b) (b ++ tail) k.0
          ∙ body_exact json_valid b tail (stream_no_m bs))
        ∙ loop-negative fuel bs (out ++ b ∷ []) (omega arith) k.1)

  length-stream : (bs : List Bytes) (tail : Bytes) → length bs ≤ length (stream bs tail)
  unfolding frame
  length-stream [] tail = omega arith
  length-stream (b ∷ bs) tail =
      omega (arith, length-stream bs tail, length-append (frame b) (stream bs tail))

  -- A message in which a header with a negative length follows any number of good frames makes
  -- decodeFrames panic, if the lengths fit in an int: the frames before it are lost too.
  pub decode_frames-negative :
      (bs : List Bytes)
      → All (λ b. length b ≤ max_int) bs
      → decode_frames json_valid (stream bs (negative n rest)) ≡ panics
  unfolding decode_frames
  decode_frames-negative bs k =
      loop-negative (suc (length (stream bs (negative n rest)))) bs []
        (omega (arith, length-stream bs (negative n rest))) k

module _ (json_valid : Bytes → Bool) where
  -- The texts that the loop comes to.
  pub data Reaches : Bytes → Bytes → Type 0 where
    here : (raw : Bytes) → Reaches raw raw
    there :
        (raw p rest : Bytes) {raw' : Bytes}
        → round json_valid raw ≡ part p rest
        → Reaches rest raw'
        → Reaches raw raw'
