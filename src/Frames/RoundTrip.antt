-- ===== src/Frames/RoundTrip.antt =====
-- decodeFrames reads back what encodeFrame writes, batched or not, and re-synchronises behind a
-- header that counts one byte too many.
use tradingview_go.Common.{
  >>=-eq-some, ◌>>=◌, ◌⊎◌, inl, inr, ℕ, zero, suc, ◌≤◌, ◌<◌, ◌≡◌, ◌≢◌, refl, sym, ap, ◌∙◌, Bool,
  true, false, Option, some, List, [], ◌∷◌, ◌++◌, arith, pos, length, drop, length-append,
  take-append, drop-append, append_assoc, append-nil, get_or, if◌then◌else◌, All, map, ◌⊎◌, inl,
  inr,
}
use tradingview_go.Text.{Bytes, codes, has_prefix}
use tradingview_go.Text.Decimal.{format_nat, max_int, format_nat-IsDigit, atoi-format_nat}
use tradingview_go.Frames.{
  Message, encode_frame, marker, frame, header, round, body, stop, part, done, decode_loop,
  decode_frames,
}
use tradingview_go.Frames.Bounds.{body-pos}
use tradingview_go.Frames.Header.{header_lem, digits-IsPlain}

-- A frame whose header says `n`.
abbrev pub headed : ℕ → Bytes → Bytes
headed n rest = marker ++ (format_nat n ++ (marker ++ rest))

pub round-headed :
    (json_valid : Bytes → Bool) (n : ℕ) (rest : Bytes)
    → n ≤ max_int
    → round json_valid (headed n rest) ≡ body json_valid (pos n) rest
unfolding round
round-headed json_valid n rest h =
    let e : header (headed n rest) ≡ some (pos n, rest) =
      header_lem (format_nat n) rest (digits-IsPlain (format_nat n) (format_nat-IsDigit n))
        (atoi-format_nat n h) in
    rw (e, round)

get_or-append : (s t : Bytes) (c d : ℕ) → get_or (s ++ c ∷ t) (length s) d ≡ c
get_or-append [] t c d = refl
get_or-append (x ∷ s) t c d = get_or-append s t c d

drop-suc-append : (s t : Bytes) (c : ℕ) → drop (suc (length s)) (s ++ c ∷ t) ≡ t
drop-suc-append [] t c = refl
drop-suc-append (x ∷ s) t c = drop-suc-append s t c

-- The exact length: the body, unless what follows would read as the rest of a marker.
pub body_exact :
    (json_valid : Bytes → Bool) (b rest : Bytes)
    → has_prefix (codes "m~") rest ≡ false
    → body json_valid (pos (length b)) (b ++ rest) ≡ part b rest
body_exact json_valid b rest h = ground (
  arith,
  body-pos json_valid (length b) (b ++ rest),
  length-append b rest,
  take-append b rest,
  drop-append b rest,
)

-- One byte too many, in front of another frame.
body_over :
    (json_valid : Bytes → Bool) (b rest : Bytes)
    → body json_valid (pos (suc (length b))) (b ++ (marker ++ rest)) ≡ part b (marker ++ rest)
unfolding has_prefix
body_over json_valid b rest = ground (
  arith,
  body-pos json_valid (suc (length b)) (b ++ (marker ++ rest)),
  length-append b (marker ++ rest),
  take-append b (marker ++ rest),
  drop-append b (marker ++ rest),
  get_or-append b (codes "m~" ++ rest) b'~' 0,
  drop-suc-append b (codes "m~" ++ rest) b'~',
)

-- The last frame of a message, one byte too long: kept if it is JSON.
body_over_last :
    (json_valid : Bytes → Bool) (b : Bytes)
    → json_valid b ≡ true
    → body json_valid (pos (suc (length b))) b ≡ stop (b ∷ [])
body_over_last json_valid b h = ground (arith, body-pos json_valid (suc (length b)) b)

-- What a server sends: bodies, each with a flag that says that its header counts one byte too many.
abbrev pub Sent : Type 0
Sent = List (Bool × Bytes)

abbrev pub bodies : Sent → List Bytes
bodies = map λ x. x.1

abbrev announced : Bool × Bytes → ℕ
announced (exact, b) = if exact then length b else suc (length b)

abbrev pub batch : Sent → Bytes
batch [] = []
batch (x ∷ xs) = headed (announced x) (x.1 ++ batch xs)

-- A body has a length that an int holds; one that ends the message with a wrong header is JSON.
abbrev pub Tolerated : (Bytes → Bool) → Sent → Type 0
Tolerated json_valid [] = Unit
Tolerated json_valid ((exact, b) ∷ []) =
    (length b < max_int) × ((exact ≡ true) ⊎ (json_valid b ≡ true))
Tolerated json_valid ((exact, b) ∷ (x ∷ xs)) = (length b < max_int) × Tolerated json_valid (x ∷ xs)

module _ (json_valid : Bytes → Bool) where
  batch_no_m : (xs : Sent) → has_prefix (codes "m~") (batch xs) ≡ false
  unfolding has_prefix
  batch_no_m [] = refl
  batch_no_m (x ∷ xs) = refl

  pub loop-part :
      (fuel c : ℕ) (raw p rest : Bytes) (out : List Bytes)
      → round json_valid (c ∷ raw) ≡ part p rest
      → decode_loop json_valid (suc fuel) (c ∷ raw) out
        ≡ decode_loop json_valid fuel rest (out ++ p ∷ [])
  unfolding decode_loop
  loop-part fuel c raw p rest out e = rw (e, decode_loop)

  loop-stop :
      (fuel c : ℕ) (raw : Bytes) (parts out : List Bytes)
      → round json_valid (c ∷ raw) ≡ stop parts
      → decode_loop json_valid (suc fuel) (c ∷ raw) out ≡ done (out ++ parts)
  unfolding decode_loop
  loop-stop fuel c raw parts out e = rw (e, decode_loop)

  round-batch :
      (x : Bool × Bytes) (xs : Sent)
      → length x.1 < max_int
      → (x.0 ≡ true) ⊎ (xs ≢ [])
      → round json_valid (batch (x ∷ xs)) ≡ part x.1 (batch xs)
  round-batch (true, b) xs h _ =
      round-headed json_valid (length b) (b ++ batch xs) (omega arith)
      ∙ body_exact json_valid b (batch xs) (batch_no_m xs)
  round-batch (false, b) [] h f = absurd (ground arith)
  round-batch (false, b) (y ∷ xs) h _ =
      round-headed json_valid (suc (length b)) (b ++ batch (y ∷ xs)) (omega arith)
      ∙ body_over json_valid b (format_nat (announced y) ++ (marker ++ (y.1 ++ batch xs)))

  round-last :
      (b : Bytes)
      → Tolerated json_valid ((false, b) ∷ [])
      → round json_valid (batch ((false, b) ∷ [])) ≡ stop (b ∷ [])
  round-last b k =
      round-headed json_valid (suc (length b)) (b ++ []) (omega arith)
      ∙ (ap (body json_valid (pos (suc (length b)))) (append-nil b)
          ∙ body_over_last json_valid b (ground arith))

  loop-batch :
      (fuel : ℕ) (xs : Sent) (out : List Bytes)
      → length xs < fuel
      → Tolerated json_valid xs
      → decode_loop json_valid fuel (batch xs) out ≡ done (out ++ bodies xs)
  loop-batch zero xs out h k = elim h [ ]
  loop-batch (suc fuel) [] out h k = unfold decode_loop in ap done (sym (append-nil out))
  loop-batch (suc fuel) ((true, b) ∷ []) out h k =
      loop-part fuel _ _ b [] out (round-batch (true, b) [] k.0 (inl refl))
      ∙ (loop-batch fuel [] (out ++ b ∷ []) (omega arith) tt ∙ ap done (append-nil (out ++ b ∷ [])))
  loop-batch (suc fuel) ((false, b) ∷ []) out h k = loop-stop fuel _ _ (b ∷ []) out (round-last b k)
  loop-batch (suc fuel) (x ∷ (y ∷ xs)) out h k =
      loop-part fuel _ _ x.1 (batch (y ∷ xs)) out (round-batch x (y ∷ xs) (k.0) (inr (cc)))
      ∙ (loop-batch fuel (y ∷ xs) (out ++ x.1 ∷ []) (omega arith) (k.1)
          ∙ ap done (append_assoc out (x.1 ∷ []) (bodies (y ∷ xs))))

  length-batch : (xs : Sent) → length xs ≤ length (batch xs)
  length-batch [] = omega arith
  length-batch (x ∷ xs) = omega (
    arith,
    length-batch xs,
    length-append (format_nat (announced x)) (marker ++ (x.1 ++ batch xs)),
    length-append x.1 (batch xs),
  )

  -- A message of frames decodes to their bodies, also where a header counts one byte too many, if
  -- every body is shorter than the largest int and a last frame with such a header is valid JSON.
  pub decode_frames-batch :
      (xs : Sent) → Tolerated json_valid xs → decode_frames json_valid (batch xs) ≡ done (bodies xs)
  unfolding decode_frames
  decode_frames-batch xs k =
      loop-batch (suc (length (batch xs))) xs [] (omega (arith, length-batch xs)) k

-- The frames of several messages in one text, and their JSON bodies; `none` if a marshal fails.
abbrev pub encode_all : (Message → Option Bytes) → List Message → Option Bytes
encode_all marshal [] = some []
encode_all marshal (m ∷ ms) = do
  f ← encode_frame marshal m
  rest ← encode_all marshal ms
  some (f ++ rest)

abbrev pub marshal_all : (Message → Option Bytes) → List Message → Option (List Bytes)
marshal_all marshal [] = some []
marshal_all marshal (m ∷ ms) = do b ← marshal m; bs ← marshal_all marshal ms; some (b ∷ bs)

exact : List Bytes → Sent
exact = map (λ b. (true, b))

bodies-exact : (bs : List Bytes) → bodies (exact bs) ≡ bs
unfolding exact
bodies-exact [] = refl
bodies-exact (b ∷ bs) = ap (λ cs. b ∷ cs) (bodies-exact bs)

exact-Tolerated :
    (json_valid : Bytes → Bool) (bs : List Bytes)
    → All (λ b. length b < max_int) bs
    → Tolerated json_valid (exact bs)
unfolding exact
exact-Tolerated json_valid [] h = tt
exact-Tolerated json_valid (b ∷ []) h = (h.0, inl refl)
exact-Tolerated json_valid (b ∷ (c ∷ bs)) h = (h.0, exact-Tolerated json_valid (c ∷ bs) h.1)

pub frame-append : (b rest : Bytes) → frame b ++ rest ≡ headed (length b) (b ++ rest)
unfolding frame
frame-append b rest = simp append_assoc

encode_all-batch :
    (marshal : Message → Option Bytes) (ms : List Message) {bs : List Bytes}
    → marshal_all marshal ms ≡ some bs
    → encode_all marshal ms ≡ some (batch (exact bs))
unfolding encode_frame exact
encode_all-batch marshal [] e = ground arith
encode_all-batch marshal (m ∷ ms) {bs} e =
    let (b, eb, e₁) = >>=-eq-some (marshal m) _ e in
    let (bs', ebs, e₂) = >>=-eq-some (marshal_all marshal ms) _ e₁ in
    let same : b ∷ bs' ≡ bs = ground arith in
    rw (eb, encode_all-batch marshal ms ebs, ← same) (ap some (frame-append b (batch (exact bs'))))

-- Messages that encodeFrame writes one after another into one text decode to their JSON bodies, if
-- every body is shorter than the largest int.
pub decode_frames-encode_all :
    (json_valid : Bytes → Bool) (marshal : Message → Option Bytes) (ms : List Message)
    {bs : List Bytes}
    → marshal_all marshal ms ≡ some bs
    → All (λ b. length b < max_int) bs
    → (raw : Bytes) × (encode_all marshal ms ≡ some raw) × (decode_frames json_valid raw ≡ done bs)
decode_frames-encode_all json_valid marshal ms {bs} e h = (
  batch (exact bs),
  encode_all-batch marshal ms e,
  decode_frames-batch json_valid (exact bs) (exact-Tolerated json_valid bs h)
      ∙ ap done (bodies-exact bs),
)
