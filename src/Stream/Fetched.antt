-- ===== src/Stream/Fetched.antt =====
-- A stream and a fetch over the same texts: what a fetch would return, a stream delivers first.
use tradingview_go.Common.{
  ◌≡◌, refl, ◌∙◌, sym, ap, inl, inr, true, none, some, List, [], ◌∷◌, ◌++◌, arith, ℤ, Option-cases,
  Bool-cases, append_assoc, append-nil,
}
use tradingview_go.Text.{Bytes}
use tradingview_go.Types.{Candle}
use tradingview_go.Errors.{ok}
use tradingview_go.Frames.{decode_frames, heartbeat_pong}
use tradingview_go.Conn.{
  send, create_session, resolve, create_series, in_session, fetch_series, Outside, returns, Event,
  canceled, read_fails, got, skip, candles, Reading, method_of, is_error_method, is_data_method,
  data_candles, read_frame, read_frames, read_bodies, read_message, read_loop, write_text,
}
use tradingview_go.Conn.Answers.{read_frame-Brings, Reading-cases, Decoded-cases}
use tradingview_go.Stream.{
  is_reading, reading, Stream, frame_candles, deliver, stream_message, stream_loop, on_connection,
}

module _ {F : Type 0} (out : Outside F) where
  read_frame-frame_candles :
      (body : Bytes) {cs : List (Candle F)}
      → read_frame out body ≡ candles cs
      → frame_candles out true body ≡ cs
  unfolding read_frame frame_candles
  read_frame-frame_candles body {cs} e =
      let b = read_frame-Brings out body e in
      rw (b.decoded, frame_candles) (rw b.data_method b.carries)

  no_candles :
      (l : List (Candle F))
      → (elim l as (λ x. Reading F) [ [] ↦ skip | c ∷ cs ↦ candles (c ∷ cs) ]) ≡ skip
      → l ≡ []
  no_candles [] e = refl
  no_candles (c ∷ l) e = absurd (ground arith)

  read_frame-skip : (body : Bytes) → read_frame out body ≡ skip → frame_candles out true body ≡ []
  unfolding read_frame frame_candles
  read_frame-skip body e = elim (Option-cases (out.unmarshal body)) [
    | inl u ↦ ground arith
    | inr (env, u) ↦ elim (Bool-cases (is_error_method (method_of env))) [
      | inl bad ↦ absurd (ground arith)
      | inr fine ↦ elim (Bool-cases (is_data_method (method_of env))) [
        | inr other ↦ ground arith
        | inl data_method ↦
            let none_there = no_candles (data_candles out env) (ground arith) in ground arith
      ]
    ]
  ]

  -- A stream before its first candle.
  abbrev begun : List Bytes → Stream F
  begun sent = record { stage = reading; sent = sent; delivered = [] }

  read_frames-none :
      (bodies : List Bytes) → read_frames out bodies ≡ none → deliver out true bodies ≡ []
  unfolding read_frames deliver
  read_frames-none [] e = refl
  read_frames-none (body ∷ bodies) e = elim (Reading-cases (read_frame out body)) [
    | inl s ↦
        let rest = read_frames-none bodies (ground arith) in
        let first = read_frame-skip body s in rw (first, rest) refl
    | inr (inl (x, s)) ↦ absurd (ground arith)
    | inr (inr (l, s)) ↦ absurd (ground arith)
  ]

  read_frames-ok :
      (bodies : List Bytes) {cs : List (Candle F)}
      → read_frames out bodies ≡ some (ok cs)
      → (later : List (Candle F)) × (deliver out true bodies ≡ cs ++ later)
  unfolding read_frames deliver
  read_frames-ok [] e = absurd (ground arith)
  read_frames-ok (body ∷ bodies) {cs} e = elim (Reading-cases (read_frame out body)) [
    | inl s ↦
        let (later, rest) = read_frames-ok bodies {cs = cs} (ground arith) in
        let first = read_frame-skip body s in (later, rw first rest)
    | inr (inl (x, s)) ↦ absurd (ground arith)
    | inr (inr (l, s)) ↦
        let first = read_frame-frame_candles body s in
        let same : l ≡ cs = ground arith in (deliver out true bodies, rw (first, same) refl)
  ]

  -- A stream adds to what it has delivered.
  stream_message-delivered :
      (raw : Bytes) (s : Stream F)
      → (more : List (Candle F)) × ((stream_message out true raw s).delivered ≡ s.delivered ++ more)
  unfolding stream_message
  stream_message-delivered raw s = elim (Option-cases (heartbeat_pong raw)) [
    | inr (pong, ping) ↦ elim (Option-cases (write_text out pong s.sent).0) [
      | inl w ↦ ([], ground (arith, append-nil s.delivered))
      | inr (cause, w) ↦ ([], ground (arith, append-nil s.delivered))
    ]
    | inl quiet ↦ elim (Decoded-cases (decode_frames out.json_valid raw)) [
      | inr (inl d) ↦ ([], ground (arith, append-nil s.delivered))
      | inr (inr d) ↦ ([], ground (arith, append-nil s.delivered))
      | inl (bodies, d) ↦ (deliver out true bodies, ground arith)
    ]
  ]

  -- The round of a message, in front of what the loop does afterwards.
  stream_loop-got :
      (raw : Bytes) (events : List Event) (s : Stream F) (later : List (Candle F))
      → let s' = stream_message out true raw s in
        (stream_loop out true events s').delivered ≡ s'.delivered ++ later
        → (more : List (Candle F)) × ((stream_loop out true (got raw ∷ events) s).delivered
            ≡ s'.delivered ++ more)
  unfolding stream_loop
  stream_loop-got raw events s later e =
      elim (Bool-cases (is_reading (stream_message out true raw s).stage)) [
        | inl on ↦ (later, rw (on, stream_loop) e)
        | inr off ↦ ([], rw (off, stream_loop) (sym (append-nil _)))
      ]

  stream_loop-delivered :
      (events : List Event) (s : Stream F)
      → (more : List (Candle F)) × ((stream_loop out true events s).delivered ≡ s.delivered ++ more)
  stream_loop-delivered [] s = ([], unfold stream_loop in sym (append-nil s.delivered))
  stream_loop-delivered (canceled cause ∷ events) s =
      ([], unfold stream_loop in sym (append-nil s.delivered))
  stream_loop-delivered (read_fails cause ∷ events) s =
      ([], unfold stream_loop in sym (append-nil s.delivered))
  stream_loop-delivered (got raw ∷ events) s =
      let (own, e) = stream_message-delivered raw s in
      let (later, e') = stream_loop-delivered events (stream_message out true raw s) in
      let (more, e'') = stream_loop-got raw events s later e' in
      (own ++ more, e'' ∙ ap (λ l. l ++ more) e ∙ append_assoc s.delivered own more)

  read_message-on :
      (raw : Bytes) (sent : List Bytes)
      → (read_message out raw sent).0 ≡ none
      → stream_message out true raw (begun sent) ≡ begun (read_message out raw sent).1
  unfolding read_message read_bodies stream_message
  read_message-on raw sent e = elim (Option-cases (heartbeat_pong raw)) [
    | inr (pong, ping) ↦ elim (Option-cases (write_text out pong sent).0) [
      | inl w ↦ ground arith
      | inr (cause, w) ↦ absurd (ground arith)
    ]
    | inl quiet ↦ elim (Decoded-cases (decode_frames out.json_valid raw)) [
      | inr (inl d) ↦ absurd (ground arith)
      | inr (inr d) ↦ absurd (ground arith)
      | inl (bodies, d) ↦ elim (Option-cases (read_frames out bodies)) [
        | inr (res, r) ↦ absurd (ground arith)
        | inl n ↦ let nothing = read_frames-none bodies n in ground arith
      ]
    ]
  ]

  read_message-ok :
      (raw : Bytes) (sent : List Bytes) {cs : List (Candle F)}
      → (read_message out raw sent).0 ≡ some (returns (ok cs))
      → (later : List (Candle F)) × ((stream_message out true raw (begun sent)).delivered
          ≡ cs ++ later)
  unfolding read_message read_bodies stream_message
  read_message-ok raw sent {cs} e = elim (Option-cases (heartbeat_pong raw)) [
    | inr (pong, ping) ↦ elim (Option-cases (write_text out pong sent).0) [
      | inl w ↦ absurd (ground arith)
      | inr (cause, w) ↦ absurd (ground arith)
    ]
    | inl quiet ↦ elim (Decoded-cases (decode_frames out.json_valid raw)) [
      | inr (inl d) ↦ absurd (ground arith)
      | inr (inr d) ↦ absurd (ground arith)
      | inl (bodies, d) ↦ elim (Option-cases (read_frames out bodies)) [
        | inl n ↦ absurd (ground arith)
        | inr (res, r) ↦
            let (later, all) = read_frames-ok bodies {cs = cs} (ground arith) in
            (later, ground arith)
      ]
    ]
  ]

  read_loop-ok :
      (events : List Event) (sent : List Bytes) {cs : List (Candle F)}
      → (read_loop out events sent).0 ≡ returns (ok cs)
      → (later : List (Candle F)) × ((stream_loop out true events (begun sent)).delivered
          ≡ cs ++ later)
  unfolding read_loop stream_loop is_reading
  read_loop-ok [] sent e = absurd (ground arith)
  read_loop-ok (canceled cause ∷ events) sent e = absurd (ground arith)
  read_loop-ok (read_fails cause ∷ events) sent e = absurd (ground arith)
  read_loop-ok (got raw ∷ events) sent {cs} e = elim (Option-cases (read_message out raw sent).0) [
    | inl on ↦
        let (later, rest) =
          read_loop-ok events (read_message out raw sent).1 {cs = cs} (ground arith) in
        (later, rw (read_message-on raw sent on) rest)
    | inr (o, m) ↦
        let (own, all) = read_message-ok raw sent {cs = cs} (ground arith) in
        let s' = stream_message out true raw (begun sent) in
        let (later, e') = stream_loop-delivered events s' in
        let (more, e'') = stream_loop-got raw events (begun sent) later e' in
        (own ++ more, e'' ∙ ap (λ l. l ++ more) all ∙ append_assoc cs own more)
  ]

  module _ (chart_id series_id symbol resolution : Bytes) (bars : ℤ) (events : List Event)
      (sent : List Bytes) where
    -- Where a fetchSeries over a connection would return candles, a stream over the same connection
    -- that asks for as many bars delivers those candles first, in order, and perhaps others behind.
    pub on_connection-fetch_series :
        {cs : List (Candle F)}
        → (fetch_series out chart_id series_id symbol resolution bars events sent).0
          ≡ returns (ok cs)
        → (later : List (Candle F)) × ((on_connection out true symbol resolution bars chart_id
              series_id events sent).delivered
            ≡ cs ++ later)
    unfolding fetch_series in_session on_connection
    on_connection-fetch_series {cs} e =
        let created = send out (create_session chart_id) sent in
        let resolved = send out (resolve chart_id symbol) created.1 in
        let asked = send out (create_series chart_id series_id resolution bars) resolved.1 in
        elim (Option-cases created.0) [
          | inr (cause, c) ↦ absurd (ground arith)
          | inl c ↦ elim (Option-cases resolved.0) [
            | inr (cause, r) ↦ absurd (ground arith)
            | inl r ↦ elim (Option-cases asked.0) [
              | inr (cause, a) ↦ absurd (ground arith)
              | inl a ↦
                  let (later, all) = read_loop-ok events asked.1 {cs = cs} (ground arith) in
                  (later, ground arith)
            ]
          ]
        ]
