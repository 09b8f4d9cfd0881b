-- ===== src/Conn/Waits.antt =====
-- What keeps fetchSeries waiting, and what it then returns.
use mathlib.Core.Option
use tradingview_go.Common.{
  All, append-nil, ℕ, ◌≡◌, ◌≢◌, refl, ◌∙◌, sym, ap, ◌⊎◌, inl, inr, true, false, none, some, List,
  [], ◌∷◌, ◌++◌, arith, length, ℤ, Option-cases, Bool-cases,
}
use tradingview_go.Text.{beq, beq_iff, Bytes, codes}
use tradingview_go.Types.{Candle}
use tradingview_go.Errors.{ok}
use tradingview_go.Frames.{frame, encode_frame, Message, decode_frames, done, heartbeat_pong}
use tradingview_go.Conn.{
  send, create_session, resolve, create_series, in_session, fetch_series, Outside, returns, Event,
  canceled, read_fails, got, skip, candles, method_of, is_error_method, is_data_method, read_frame,
  read_frames, read_bodies, read_message, read_loop, write_text,
}
use tradingview_go.Conn.Answers.{Brings}

module _ {F : Type 0} (out : Outside F) where
  data-error : (m : Bytes) → is_data_method m ≡ true → is_error_method m ≡ false
  unfolding is_data_method is_error_method
  data-error m e = elim (Bool-cases (beq m (codes "du"))) [
    | inl du ↦ rw ((beq_iff m (codes "du")).0 du) (unfold beq in refl)
    | inr other ↦
        let update : beq m (codes "timescale_update") ≡ true = ground arith in
        rw ((beq_iff m (codes "timescale_update")).0 update) (unfold beq in refl)
  ]

  Brings-read_frame :
      (body : Bytes) {cs : List (Candle F)} → Brings out cs body → read_frame out body ≡ candles cs
  unfolding read_frame
  Brings-read_frame body {cs} b =
      let fine = data-error (method_of b.env) b.data_method in
      rw (b.decoded, read_frame) (rw (fine, b.data_method, b.carries) (same cs b.some_candles))
    where
      same :
          (cs : List (Candle F))
          → cs ≢ []
          → (elim cs [ [] ↦ skip | c ∷ l ↦ candles (c ∷ l) ]) ≡ candles cs
      same [] h = absurd (h refl)
      same (c ∷ l) h = refl

  -- A message that leaves fetchSeries waiting: a ping, or frames without errors and data.
  abbrev pub IsIdle : Event → Type 0
  IsIdle (got raw) =
      (heartbeat_pong raw ≢ none)
      ⊎ ((bodies : List Bytes) × (decode_frames out.json_valid raw ≡ done bodies)
          × All (λ b. read_frame out b ≡ skip) bodies)
  IsIdle _ = ⊥

  read_frames-idle :
      (bodies more : List Bytes)
      → All (λ b. read_frame out b ≡ skip) bodies
      → read_frames out (bodies ++ more) ≡ read_frames out more
  unfolding read_frames
  read_frames-idle [] more h = refl
  read_frames-idle (b ∷ bodies) more (s, h) = rw (s, read_frames) (read_frames-idle bodies more h)

  module _ (writes : (n : ℕ) → out.write n ≡ none) where
    pub wrote : (b : Bytes) (sent : List Bytes) → (write_text out b sent).0 ≡ none
    unfolding write_text
    wrote b sent = writes (length sent)

    read_message-idle :
        (raw : Bytes) (sent : List Bytes) → IsIdle (got raw) → (read_message out raw sent).0 ≡ none
    unfolding read_message read_bodies
    read_message-idle raw sent idle = elim (Option-cases (heartbeat_pong raw)) [
      | inr (pong, ping) ↦ ground (arith, wrote pong sent)
      | inl quiet ↦ elim idle [
        | inl ping ↦ absurd (ping quiet)
        | inr (bodies, d, h) ↦
            let r : read_frames out bodies ≡ none =
              ap (read_frames out) (sym (append-nil bodies))
              ∙ read_frames-idle bodies [] h
              ∙ unfold read_frames in refl in
            ground (arith, d, r)
      ]
    ]

    read_loop-idle :
        (before after : List Event) (sent : List Bytes)
        → All IsIdle before
        → (sent' : List Bytes) × (read_loop out (before ++ after) sent ≡ read_loop out after sent')
    unfolding read_loop
    read_loop-idle [] after sent h = (sent, refl)
    read_loop-idle (got raw ∷ before) after sent (i, h) =
        let (sent', e) = read_loop-idle before after (read_message out raw sent).1 h in
        (sent', rw (read_message-idle raw sent i, read_loop) e)
    read_loop-idle (canceled cause ∷ before) after sent (i, h) = absurd i
    read_loop-idle (read_fails cause ∷ before) after sent (i, h) = absurd i

    read_message-data :
        (raw : Bytes) (sent xs ys : List Bytes) (body : Bytes) {cs : List (Candle F)}
        → heartbeat_pong raw ≡ none
        → decode_frames out.json_valid raw ≡ done (xs ++ body ∷ ys)
        → All (λ b. read_frame out b ≡ skip) xs
        → Brings out cs body
        → read_message out raw sent ≡ (some (returns (ok cs)), sent)
    unfolding read_message read_bodies
    read_message-data raw sent xs ys body {cs} quiet d h b =
        let first : read_frames out (body ∷ ys) ≡ some (ok cs) =
          unfold read_frames in ground (arith, Brings-read_frame body b) in
        let r = read_frames-idle xs (body ∷ ys) h ∙ first in ground (arith, r)

    pub wrote_message :
        (m : Message) (sent : List Bytes) {body : Bytes}
        → out.marshal m ≡ some body
        → (send out m sent).0 ≡ none
    unfolding send
    wrote_message m sent {body} e =
        let encoded : encode_frame out.marshal m ≡ some (frame body) =
          unfold encode_frame in ap (Option.map frame) e in
        rw (encoded, send) (wrote (frame body) sent)

    module _ (marshals : (m : Message) → (body : Bytes) × (out.marshal m ≡ some body))
        (chart_id series_id symbol resolution : Bytes) (bars : ℤ) where
      -- While the messages are written, fetchSeries returns the candles of the first data message that
      -- it reads before its deadline, if only pings and messages without errors and data come before
      -- it, also in the text that it comes in, and that text has no ping.
      pub fetch_series-answers :
          (before after : List Event) (raw : Bytes) (sent xs ys : List Bytes) (body : Bytes)
          {cs : List (Candle F)}
          → All IsIdle before
          → heartbeat_pong raw ≡ none
          → decode_frames out.json_valid raw ≡ done (xs ++ body ∷ ys)
          → All (λ b. read_frame out b ≡ skip) xs
          → Brings out cs body
          → (fetch_series out chart_id series_id symbol resolution bars
              (before ++ got raw ∷ after)
              sent).0
            ≡ returns (ok cs)
      unfolding fetch_series in_session
      fetch_series-answers before after raw sent xs ys body {cs} idle quiet d h b =
          let created = send out (create_session chart_id) sent in
          let resolved = send out (resolve chart_id symbol) created.1 in
          let asked = send out (create_series chart_id series_id resolution bars) resolved.1 in
          let c = wrote_message (create_session chart_id) sent (marshals _).1 in
          let r = wrote_message (resolve chart_id symbol) created.1 (marshals _).1 in
          let a =
            wrote_message (create_series chart_id series_id resolution bars) resolved.1
              (marshals _).1 in
          let (sent', waited) = read_loop-idle before (got raw ∷ after) asked.1 idle in
          let last = read_message-data raw sent' xs ys body quiet d h b in
          let read : (read_loop out (got raw ∷ after) sent').0 ≡ returns (ok cs) =
            unfold read_loop in ground (arith, last) in
          ground (arith, c, r, a, waited, read)
