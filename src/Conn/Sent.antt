-- ===== src/Conn/Sent.antt =====
-- What fetchSeries writes: it deletes the session that it created, whatever happens in between.
use tradingview_go.Common.{
  ◌≡◌, refl, ◌∙◌, sym, ap, none, some, List, [], ◌∷◌, ◌++◌, append-nil, append_assoc, length, ℤ,
  Option-cases, inl, inr,
}
use tradingview_go.Text.{Bytes}
use tradingview_go.Frames.{Message, encode_frame, heartbeat_pong}
use tradingview_go.Conn.{
  read_message, Outside, Event, canceled, read_fails, got, create_session, delete_session, resolve,
  create_series, write_text, send, read_loop, in_session, fetch_series,
}

-- One sequence of writes goes on from another.
abbrev pub Extends : List Bytes → List Bytes → Type 0
Extends s t = (more : List Bytes) × (t ≡ s ++ more)

Extends-refl : (s : List Bytes) → Extends s s
Extends-refl s = ([], sym (append-nil s))

Extends-trans : (r : List Bytes) {s t : List Bytes} → Extends r s → Extends s t → Extends r t
Extends-trans r (x, e) (y, e') = (x ++ y, rw (e', e) (append_assoc r x y))

module _ {F : Type 0} (out : Outside F) where
  write_text-Extends : (b : Bytes) (s : List Bytes) → Extends s (write_text out b s).1
  unfolding write_text
  write_text-Extends b s = (b ∷ [], refl)

  send-Extends : (m : Message) (s : List Bytes) → Extends s (send out m s).1
  unfolding send
  send-Extends m s = elim (Option-cases (encode_frame out.marshal m)) [
    | inl e ↦ rw (e, send) (Extends-refl s)
    | inr (b, e) ↦ rw (e, send) (write_text-Extends b s)
  ]

  send-encode :
      (m : Message) (s : List Bytes) {body : Bytes}
      → encode_frame out.marshal m ≡ some body
      → send out m s ≡ (out.write (length s), s ++ body ∷ [])
  unfolding send write_text
  send-encode m s e = rw (e, send) refl

  read_message-Extends : (raw : Bytes) (s : List Bytes) → Extends s (read_message out raw s).1
  unfolding read_message
  read_message-Extends raw s = elim (Option-cases (heartbeat_pong raw)) [
    | inl e ↦ rw (e, read_message) (Extends-refl s)
    | inr (pong, e) ↦
        rw (e, read_message)
          (elim (Option-cases (write_text out pong s).0) [
            | inl f ↦ rw f (write_text-Extends pong s)
            | inr (cause, f) ↦ rw f (write_text-Extends pong s)
          ])
  ]

  read_loop-Extends : (events : List Event) (s : List Bytes) → Extends s (read_loop out events s).1
  unfolding read_loop
  read_loop-Extends [] s = Extends-refl s
  read_loop-Extends (canceled cause ∷ events) s = Extends-refl s
  read_loop-Extends (read_fails cause ∷ events) s = Extends-refl s
  read_loop-Extends (got raw ∷ events) s =
      let t = (read_message out raw s).1 in
      elim (Option-cases (read_message out raw s).0) [
        | inl e ↦
            rw (e, read_loop)
              (Extends-trans s (read_message-Extends raw s) (read_loop-Extends events t))
        | inr (outcome, e) ↦ rw (e, read_loop) (read_message-Extends raw s)
      ]

  module _ (chart_id series_id symbol resolution : Bytes) (bars : ℤ) (events : List Event) where
    in_session-Extends :
        (s : List Bytes)
        → Extends s (in_session out chart_id series_id symbol resolution bars events s).1
    unfolding in_session
    in_session-Extends s =
        let m = resolve chart_id symbol in
        let t = (send out m s).1 in
        let m' = create_series chart_id series_id resolution bars in
        let t' = (send out m' t).1 in
        elim (Option-cases (send out m s).0) [
          | inr (cause, e) ↦ rw (e, in_session) (send-Extends m s)
          | inl e ↦
              rw (e, in_session)
                (Extends-trans s (send-Extends m s) (elim (Option-cases (send out m' t).0) [
                  | inr (cause, f) ↦ rw f (send-Extends m' t)
                  | inl f ↦ rw f (Extends-trans t (send-Extends m' t) (read_loop-Extends events t'))
                ]))
        ]

    -- A fetchSeries whose first write succeeds ends with the delete of the session that it created,
    -- whether it returns candles, returns an error or panics. `create` and `delete` are the frames of
    -- the two messages.
    pub fetch_series-deletes :
        (s : List Bytes) (create delete : Bytes)
        → encode_frame out.marshal (create_session chart_id) ≡ some create
        → encode_frame out.marshal (delete_session chart_id) ≡ some delete
        → out.write (length s) ≡ none
        → (between : List Bytes) × ((fetch_series out chart_id series_id symbol resolution bars
              events s).1
            ≡ s ++ create ∷ (between ++ delete ∷ []))
    unfolding fetch_series
    fetch_series-deletes s create delete encoded encoded' written =
        let t = s ++ create ∷ [] in
        let t' = (in_session out chart_id series_id symbol resolution bars events t).1 in
        let (between, e) = in_session-Extends t in
        let first : send out (create_session chart_id) s ≡ (none, t) =
          send-encode (create_session chart_id) s encoded ∙ ap (λ w. (w, t)) written in
        let last : (send out (delete_session chart_id) t').1 ≡ t' ++ delete ∷ [] =
          ap (λ p. p.1) (send-encode (delete_session chart_id) t' encoded') in
        (
          between,
          rw (ap (λ p. p.0) first, ap (λ p. p.1) first, fetch_series)
              (last
                ∙ ap (λ l. l ++ delete ∷ []) e
                ∙ append_assoc t between (delete ∷ [])
                ∙ append_assoc s (create ∷ []) (between ++ delete ∷ [])),
        )
