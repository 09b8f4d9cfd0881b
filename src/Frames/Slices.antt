-- ===== src/Frames/Slices.antt =====
-- decodeFrames always ends, and what it returns are pieces of its input, in order.
use tradingview_go.Common.{
  ℕ, zero, suc, ◌-◌, ◌<◌, ◌≡◌, ◌≢◌, refl, sym, ap, ◌∙◌, ◌⊎◌, inl, inr, Bool, List, [], ◌∷◌, ◌++◌,
  arith, ℤ, pos, negsuc, length, length-append, take-append-drop, append_assoc, append-nil,
  Option-cases,
}
use tradingview_go.Text.{Bytes}
use tradingview_go.Frames.{
  header, Round, round, body, stop, part, crash, done, out_of_fuel, decode_loop, decode_frames,
}
use tradingview_go.Frames.Bounds.{body-pos, body-negsuc}
use tradingview_go.Frames.Header.{header_slice}

-- The parts stand in the text in this order, without overlap.
pub data Slices : List Bytes → Bytes → Type 0 where
  nothing : (raw : Bytes) → Slices [] raw
  slice :
      {parts : List Bytes} {raw : Bytes} (pre p rest : Bytes)
      → raw ≡ pre ++ (p ++ rest)
      → Slices parts rest
      → Slices (p ∷ parts) raw

module _ (json_valid : Bytes → Bool) where
  -- A part and what is left make up the text behind the header.
  body-part :
      (n : ℤ) (raw : Bytes) {p rest : Bytes} → body json_valid n raw ≡ part p rest → p ++ rest ≡ raw
  body-part (negsuc k) raw e = absurd (ground (arith, body-negsuc json_valid k raw))
  body-part (pos n) raw e =
      ground
        (arith, body-pos json_valid n raw, take-append-drop n raw, take-append-drop (n - 1) raw)

  -- The last parts are the whole rest of the text, or none.
  body-stop :
      (n : ℤ) (raw : Bytes) {parts : List Bytes}
      → body json_valid n raw ≡ stop parts
      → (parts ≡ []) ⊎ (parts ≡ raw ∷ [])
  body-stop (negsuc k) raw e = absurd (ground (arith, body-negsuc json_valid k raw))
  body-stop (pos n) raw e = ground (arith, body-pos json_valid n raw)

  -- A round that takes a part off: the header, the part and what is left make up the text.
  pub round-part :
      (raw : Bytes) {p rest : Bytes}
      → round json_valid raw ≡ part p rest
      → (pre : Bytes) × (raw ≡ pre ++ (p ++ rest)) × (length rest < length raw)
  unfolding round
  round-part raw {p} {rest} e = elim (Option-cases (header raw)) [
    | inl h ↦ absurd (ground arith)
    | inr ((n, raw'), h) ↦
        let (pre, cut, long) = header_slice raw h in
        let split : p ++ rest ≡ raw' = body-part n raw' {p = p} {rest = rest} (ground arith) in
        (
          pre,
          cut ∙ ap (λ s. pre ++ s) (sym split),
          omega
              (arith, ap length cut, ap length split, length-append pre raw', length-append p rest),
        )
  ]

  round-stop :
      (raw : Bytes) {parts : List Bytes} → round json_valid raw ≡ stop parts → Slices parts raw
  unfolding round
  round-stop raw {parts} e = elim (Option-cases (header raw)) [
    | inl h ↦ let nil : parts ≡ [] = ground arith in rw nil (nothing raw)
    | inr ((n, raw'), h) ↦
        let (pre, cut, _) = header_slice raw h in
        elim (body-stop n raw' {parts = parts} (ground arith)) [
          | inl nil ↦ rw nil (nothing raw)
          | inr one ↦
              rw one
                (slice pre raw' [] (cut ∙ ap (λ s. pre ++ s) (sym (append-nil raw'))) (nothing []))
        ]
  ]

  -- The first round on a text that is not empty, with what the loop makes of it.
  pub data Turn (raw : Bytes) : Type 0 where
    stops : (parts : List Bytes) → round json_valid raw ≡ stop parts → Turn raw
    takes : (p rest : Bytes) → round json_valid raw ≡ part p rest → Turn raw
    crashes : round json_valid raw ≡ crash → Turn raw

  pub turn : (raw : Bytes) → Turn raw
  turn raw = go (round json_valid raw) refl
    where
      go : (r : Round) → round json_valid raw ≡ r → Turn raw
      go (stop parts) e = stops parts e
      go (part p rest) e = takes p rest e
      go crash e = crashes e

  loop_ends :
      (fuel : ℕ) (raw : Bytes) (out : List Bytes)
      → length raw < fuel
      → decode_loop json_valid fuel raw out ≢ out_of_fuel
  unfolding decode_loop
  loop_ends zero raw out h = elim h [ ]
  loop_ends (suc fuel) [] out h = cc
  loop_ends (suc fuel) (c ∷ raw) out h = elim (turn (c ∷ raw)) [
    | stops parts e ↦ rw (e, decode_loop) (cc)
    | crashes e ↦ rw (e, decode_loop) (cc)
    | takes p rest e ↦
        let (_, _, shorter) = round-part (c ∷ raw) e in
        rw (e, decode_loop) (loop_ends fuel rest (out ++ p ∷ []) (omega arith))
  ]

  -- The loop of decodeFrames ends on every text within the fuel it is given.
  pub decode_frames_ends : (raw : Bytes) → decode_frames json_valid raw ≢ out_of_fuel
  unfolding decode_frames
  decode_frames_ends raw = loop_ends (suc (length raw)) raw [] (omega arith)

  loop-Slices :
      (fuel : ℕ) (raw : Bytes) (out : List Bytes) {parts : List Bytes}
      → decode_loop json_valid fuel raw out ≡ done parts
      → (ps : List Bytes) × (parts ≡ out ++ ps) × Slices ps raw
  unfolding decode_loop
  loop-Slices zero raw out e = absurd (ground arith)
  loop-Slices (suc fuel) [] out e = ([], ground (arith, append-nil out), nothing [])
  loop-Slices (suc fuel) (c ∷ raw) out e = elim (turn (c ∷ raw)) [
    | stops ps t ↦ (ps, ground arith, round-stop (c ∷ raw) t)
    | crashes t ↦ absurd (ground arith)
    | takes p rest t ↦
        let (pre, cut, _) = round-part (c ∷ raw) t in
        let (ps, more, slices) = loop-Slices fuel rest (out ++ p ∷ []) (ground arith) in
        (p ∷ ps, more ∙ append_assoc out (p ∷ []) ps, slice pre p rest cut slices)
  ]

  -- Every part that decodeFrames returns is a piece of the message; the pieces stand in the order
  -- of the parts and do not overlap.
  pub decode_frames-Slices :
      (raw : Bytes) {parts : List Bytes}
      → decode_frames json_valid raw ≡ done parts
      → Slices parts raw
  unfolding decode_frames
  decode_frames-Slices raw e =
      let (ps, same, slices) = loop-Slices (suc (length raw)) raw [] e in rw same slices
