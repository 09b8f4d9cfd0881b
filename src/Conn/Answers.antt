-- ===== src/Conn/Answers.antt =====
-- What fetchSeries answers with: candles that a message brought, and the first that comes.
use tradingview_go.Common.{
  ◌≡◌, ◌≢◌, refl, ◌⊎◌, inl, inr, true, none, some, List, [], ◌∷◌, arith, ℤ, Option-cases,
  Bool-cases,
}
use tradingview_go.Text.{Bytes}
use tradingview_go.Types.{Candle}
use tradingview_go.Errors.{Error, ok}
use tradingview_go.Frames.{decode_frames, Decoded, done, panics, out_of_fuel, heartbeat_pong}
use tradingview_go.Payload.{Fields}
use tradingview_go.Conn.{
  send, create_session, resolve, create_series, in_session, fetch_series, Outside, returns, Event,
  canceled, read_fails, got, skip, symbol_error, candles, Reading, method_of, is_error_method,
  is_data_method, data_candles, read_frame, read_frames, read_bodies, read_message, read_loop,
  write_text,
}

-- One of the elements satisfies the predicate.
abbrev pub AnyOf {ℓ} : {A : Type ℓ} → (A → Type 0) → List A → Type 0
AnyOf P [] = ⊥
AnyOf P (x ∷ xs) = P x ⊎ AnyOf P xs

pub Reading-cases :
    {F : Type 0} (r : Reading F)
    → (r ≡ skip)
      ⊎ ((e : Error) × (r ≡ symbol_error e))
      ⊎ ((cs : List (Candle F)) × (r ≡ candles cs))
Reading-cases skip = inl refl
Reading-cases (symbol_error e) = inr (inl (e, refl))
Reading-cases (candles cs) = inr (inr (cs, refl))

pub Decoded-cases :
    (d : Decoded) → ((bodies : List Bytes) × (d ≡ done bodies)) ⊎ (d ≡ panics) ⊎ (d ≡ out_of_fuel)
Decoded-cases (done bodies) = inl (bodies, refl)
Decoded-cases panics = inr (inl refl)
Decoded-cases out_of_fuel = inr (inr refl)

module _ {F : Type 0} (out : Outside F) where
  -- This frame is a message with data, and these are its candles.
  pub record Brings (cs : List (Candle F)) (body : Bytes) : Type 0 where
    pub env : Fields F
    pub decoded : out.unmarshal body ≡ some env
    pub data_method : is_data_method (method_of env) ≡ true
    pub carries : data_candles out env ≡ cs
    pub some_candles : cs ≢ []

  -- This event is a message without a ping, and one of its frames brings these candles.
  abbrev pub EventBrings : List (Candle F) → Event → Type 0
  EventBrings cs (got raw) =
      (heartbeat_pong raw ≡ none)
      × (bodies : List Bytes) × (decode_frames out.json_valid raw ≡ done bodies)
      × AnyOf (Brings cs) bodies
  EventBrings cs _ = ⊥

  pub read_frame-Brings :
      (body : Bytes) {cs : List (Candle F)} → read_frame out body ≡ candles cs → Brings cs body
  unfolding read_frame
  read_frame-Brings body {cs} e = elim (Option-cases (out.unmarshal body)) [
    | inl u ↦ absurd (ground arith)
    | inr (env, u) ↦ elim (Bool-cases (is_error_method (method_of env))) [
      | inl bad ↦ absurd (ground arith)
      | inr fine ↦ elim (Bool-cases (is_data_method (method_of env))) [
        | inr other ↦ absurd (ground arith)
        | inl data_method ↦ elim (nonempty (data_candles out env)) [
          | inl none_there ↦ absurd (ground arith)
          | inr (c, cs', there) ↦ record {
            env = env;
            decoded = u;
            data_method = data_method;
            carries = ground arith;
            some_candles = ground arith;
          }
        ]
      ]
    ]
  ]
    where
      nonempty :
          (l : List (Candle F))
          → (l ≡ []) ⊎ ((c : Candle F) × (cs : List (Candle F)) × (l ≡ c ∷ cs))
      nonempty [] = inl refl
      nonempty (c ∷ l) = inr (c, l, refl)

  read_frames-Brings :
      (bodies : List Bytes) {cs : List (Candle F)}
      → read_frames out bodies ≡ some (ok cs)
      → AnyOf (Brings cs) bodies
  unfolding read_frames
  read_frames-Brings [] e = absurd (ground arith)
  read_frames-Brings (body ∷ rest) {cs} e = elim (Reading-cases (read_frame out body)) [
    | inl s ↦ inr (read_frames-Brings rest (ground arith))
    | inr (inl (x, s)) ↦ absurd (ground arith)
    | inr (inr (l, s)) ↦ inl (read_frame-Brings body (ground arith))
  ]

  read_message-Brings :
      (raw : Bytes) (sent : List Bytes) {cs : List (Candle F)}
      → (read_message out raw sent).0 ≡ some (returns (ok cs))
      → EventBrings cs (got raw)
  unfolding read_message read_bodies
  read_message-Brings raw sent {cs} e = elim (Option-cases (heartbeat_pong raw)) [
    | inr (pong, ping) ↦ elim (Option-cases (write_text out pong sent).0) [
      | inl w ↦ absurd (ground arith)
      | inr (cause, w) ↦ absurd (ground arith)
    ]
    | inl quiet ↦ elim (Decoded-cases (decode_frames out.json_valid raw)) [
      | inr (inl d) ↦ absurd (ground arith)
      | inr (inr d) ↦ absurd (ground arith)
      | inl (bodies, d) ↦ elim (Option-cases (read_frames out bodies)) [
        | inl n ↦ absurd (ground arith)
        | inr (res, r) ↦ (quiet, bodies, d, read_frames-Brings bodies (ground arith))
      ]
    ]
  ]

  read_loop-Brings :
      (events : List Event) (sent : List Bytes) {cs : List (Candle F)}
      → (read_loop out events sent).0 ≡ returns (ok cs)
      → AnyOf (EventBrings cs) events
  unfolding read_loop
  read_loop-Brings [] sent e = absurd (ground arith)
  read_loop-Brings (canceled cause ∷ events) sent e = absurd (ground arith)
  read_loop-Brings (read_fails cause ∷ events) sent e = absurd (ground arith)
  read_loop-Brings (got raw ∷ events) sent {cs} e =
      elim (Option-cases (read_message out raw sent).0) [
        | inl m ↦ inr (read_loop-Brings events (read_message out raw sent).1 (ground arith))
        | inr (o, m) ↦ inl (read_message-Brings raw sent (ground arith))
      ]

  module _ (chart_id series_id symbol resolution : Bytes) (bars : ℤ) (events : List Event)
      (sent : List Bytes) where
    -- A fetchSeries that returns candles has read them: they are not empty, and they are those of a
    -- data message in a frame of one of the texts that it read before its deadline.
    pub fetch_series-Brings :
        {cs : List (Candle F)}
        → (fetch_series out chart_id series_id symbol resolution bars events sent).0
          ≡ returns (ok cs)
        → AnyOf (EventBrings cs) events
    unfolding fetch_series in_session
    fetch_series-Brings {cs} e =
        let created = send out (create_session chart_id) sent in
        let resolved = send out (resolve chart_id symbol) created.1 in
        let asked = send out (create_series chart_id series_id resolution bars) resolved.1 in
        elim (Option-cases created.0) [
          | inr (cause, c) ↦ absurd (ground arith)
          | inl c ↦ elim (Option-cases resolved.0) [
            | inr (cause, r) ↦ absurd (ground arith)
            | inl r ↦ elim (Option-cases asked.0) [
              | inr (cause, a) ↦ absurd (ground arith)
              | inl a ↦ read_loop-Brings events asked.1 (ground arith)
            ]
          ]
        ]
