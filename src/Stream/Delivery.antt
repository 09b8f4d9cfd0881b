-- ===== src/Stream/Delivery.antt =====
-- What a subscription delivers over connections that fail.
use mathlib.Core.List.{flat_map, flatten}
use tradingview_go.Common.{
  ℕ, ◌≡◌, ◌≢◌, refl, ◌∙◌, sym, ap, ◌⊎◌, inl, inr, true, false, none, some, List, [], ◌∷◌, ◌++◌,
  arith, ℤ, map, All, Option-cases, append_assoc, append-nil,
}
use tradingview_go.Text.{Bytes}
use tradingview_go.Types.{Candle}
use tradingview_go.Errors.{Error, ok, err}
use tradingview_go.Frames.{decode_frames, done, heartbeat_pong, Message}
use tradingview_go.Conn.{
  send, create_session, resolve, create_series, Outside, Event, read_fails, got, write_text,
}
use tradingview_go.Conn.Waits.{wrote_message, wrote}
use tradingview_go.Stream.{
  is_reading, reading, not_dialed, Stream, Attempt, Streamer, frame_candles, deliver,
  stream_message, stream_loop, on_connection, stream, run_attempts, serve,
}

module _ {F : Type 0} (out : Outside F) where
  -- The candles of a message: those of its frames, in order, and none if it has a ping.
  abbrev pub message_candles : Bytes → List (Candle F)
  message_candles raw = elim (heartbeat_pong raw) [
    | some pong ↦ []
    | none ↦ elim (decode_frames out.json_valid raw) [
      | done bodies ↦ flat_map (frame_candles out true) bodies
      | _ ↦ []
    ]
  ]

  -- A ping, or a message whose headers do not make decodeFrames panic.
  abbrev pub IsReadable : Bytes → Type 0
  IsReadable raw =
      (heartbeat_pong raw ≢ none)
      ⊎ ((bodies : List Bytes) × (decode_frames out.json_valid raw ≡ done bodies))

  deliver-flat_map :
      (bodies : List Bytes) → deliver out true bodies ≡ flat_map (frame_candles out true) bodies
  unfolding deliver flat_map flatten
  deliver-flat_map [] = refl
  deliver-flat_map (body ∷ bodies) =
      ap (λ l. frame_candles out true body ++ l) (deliver-flat_map bodies)

  module _ (writes : (n : ℕ) → out.write n ≡ none) where
    stream_message-candles :
        (raw : Bytes) (s : Stream F)
        → IsReadable raw
        → (sent : List Bytes) × (stream_message out true raw s
            ≡ record s { sent = sent; delivered = s.delivered ++ message_candles raw })
    unfolding stream_message
    stream_message-candles raw s readable = elim (Option-cases (heartbeat_pong raw)) [
      | inr (pong, ping) ↦ (
        (write_text out pong s.sent).1,
        ground (arith, wrote out writes pong s.sent, append-nil s.delivered),
      )
      | inl quiet ↦ elim readable [
        | inl ping ↦ absurd (ping quiet)
        | inr (bodies, d) ↦ (s.sent, ground (arith, deliver-flat_map bodies))
      ]
    ]

    -- The loop over readable messages, and then over what comes behind them.
    stream_loop-candles :
        (raws : List Bytes) (after : List Event) (sent : List Bytes) (delivered : List (Candle F))
        → All IsReadable raws
        → (sent' : List Bytes) × (stream_loop out true
              (map got raws ++ after)
              (record { stage = reading; sent = sent; delivered = delivered })
            ≡ stream_loop out true after (record {
              stage = reading;
              sent = sent';
              delivered = delivered ++ flat_map message_candles raws;
            }))
    unfolding stream_loop is_reading flat_map flatten
    stream_loop-candles [] after sent delivered h = (sent, rw (append-nil delivered) refl)
    stream_loop-candles (raw ∷ raws) after sent delivered (r, h) =
        let s : Stream F = record { stage = reading; sent = sent; delivered = delivered } in
        let (sent', e) = stream_message-candles raw s r in
        let (sent'', e') =
          stream_loop-candles raws after sent' (delivered ++ message_candles raw) h in
        (
          sent'',
          rw (e, stream_loop)
              (e'
                ∙ ap
                    (λ l.
                      stream_loop out true after
                        (record { stage = reading; sent = sent''; delivered = l }))
                    (append_assoc delivered (message_candles raw) (flat_map message_candles raws))),
        )

    module _ (marshals : (m : Message) → (body : Bytes) × (out.marshal m ≡ some body))
        (chart_id series_id symbol resolution : Bytes) (history : ℤ) where
      on_connection-candles :
          (raws : List Bytes) (after : List Event) (sent : List Bytes)
          → All IsReadable raws
          → (sent' : List Bytes) × (on_connection out true symbol resolution history chart_id
                series_id
                (map got raws ++ after)
                sent
              ≡ stream_loop out true after (record {
                stage = reading;
                sent = sent';
                delivered = flat_map message_candles raws;
              }))
      unfolding on_connection
      on_connection-candles raws after sent h =
          let created = send out (create_session chart_id) sent in
          let resolved = send out (resolve chart_id symbol) created.1 in
          let asked = send out (create_series chart_id series_id resolution history) resolved.1 in
          let c = wrote_message out writes (create_session chart_id) sent (marshals _).1 in
          let r = wrote_message out writes (resolve chart_id symbol) created.1 (marshals _).1 in
          let a =
            wrote_message out writes (create_series chart_id series_id resolution history)
              resolved.1 (marshals _).1 in
          let (sent', e) = stream_loop-candles raws after asked.1 [] h in
          (sent', rw (c, on_connection) (rw r (rw a e)))

module _ {F : Type 0} where
  -- The attempt dials and sets its session up, and every text that it hands over is written.
  pub record IsConnected (a : Attempt F) : Type 0 where
    pub conn : ℕ
    pub dialed : a.dialed ≡ ok conn
    pub writes : (n : ℕ) → a.out.write n ≡ none
    pub marshals : (m : Message) → (body : Bytes) × (a.out.marshal m ≡ some body)

  -- The attempt does not dial, or its read fails behind messages with these candles.
  abbrev pub FailsAfter : Attempt F → List (Candle F) → Type 0
  FailsAfter a cs =
      ((e : Error) × (a.dialed ≡ err e) × (cs ≡ []))
      ⊎ ((raws : List Bytes) × (cause : Bytes) × (after : List Event) × IsConnected a
          × (a.events ≡ map got raws ++ read_fails cause ∷ after)
          × All (IsReadable a.out) raws
          × (cs ≡ flat_map (message_candles a.out) raws))

  -- The attempt has read messages with these candles, and goes on reading.
  abbrev pub Reads : Attempt F → List (Candle F) → Type 0
  Reads a cs =
      (raws : List Bytes) × IsConnected a
      × (a.events ≡ map got raws)
      × All (IsReadable a.out) raws
      × (cs ≡ flat_map (message_candles a.out) raws)

  module _ (symbol resolution : Bytes) (history : ℤ) where
    -- A stream over an attempt that connects.
    stream-candles :
        (a : Attempt F) (raws : List Bytes) (after : List Event)
        → IsConnected a
        → a.events ≡ map got raws ++ after
        → All (IsReadable a.out) raws
        → (sent : List Bytes) × (stream true symbol resolution history a []
            ≡ stream_loop a.out true after (record {
              stage = reading;
              sent = sent;
              delivered = flat_map (message_candles a.out) raws;
            }))
    unfolding stream
    stream-candles a raws after c events h =
        let (sent, e) =
          on_connection-candles a.out c.writes c.marshals a.chart_id a.series_id symbol resolution
            history raws after [] h in
        (sent, rw (c.dialed, stream) (rw events e))

    run_attempts-cons :
        (a : Attempt F) (attempts : List (Attempt F)) (cs : List (Candle F))
        → FailsAfter a cs
        → run_attempts true symbol resolution history (a ∷ attempts)
          ≡ cs ++ run_attempts true symbol resolution history attempts
    unfolding run_attempts stream_loop
    run_attempts-cons a attempts cs fails = elim fails [
      | inl (e, d, nothing) ↦
          let s : stream true symbol resolution history a []
              ≡ record { stage = not_dialed e; sent = []; delivered = [] } =
            unfold stream in ground (arith, d) in
          rw (ap (λ t. t.stage) s, run_attempts) (rw (ap (λ t. t.delivered) s, nothing) refl)
      | inr (raws, cause, after, c, events, h, all) ↦
          let (sent, s) = stream-candles a raws (read_fails cause ∷ after) c events h in
          rw (ap (λ t. t.stage) s, run_attempts) (rw (ap (λ t. t.delivered) s, all) refl)
    ]

    run_attempts-last :
        (a : Attempt F) (cs : List (Candle F))
        → Reads a cs
        → run_attempts true symbol resolution history (a ∷ []) ≡ cs
    unfolding run_attempts stream_loop
    run_attempts-last a cs (raws, c, events, h, all) =
        let (sent, s) = stream-candles a raws [] c (events ∙ sym (append-nil (map got raws))) h in
        rw (ap (λ t. t.stage) s, run_attempts) (rw (ap (λ t. t.delivered) s) (sym all))

    run_attempts-flatten :
        (failed : List (Attempt F × List (Candle F))) (a : Attempt F) (cs : List (Candle F))
        → All (λ p. FailsAfter p.0 p.1) failed
        → Reads a cs
        → run_attempts true symbol resolution history (map (λ p. p.0) failed ++ a ∷ [])
          ≡ flatten (map (λ p. p.1) failed) ++ cs
    unfolding flatten
    run_attempts-flatten [] a cs h last = run_attempts-last a cs last
    run_attempts-flatten ((b, ds) ∷ failed) a cs (f, h) last =
        run_attempts-cons b (map (λ p. p.0) failed ++ a ∷ []) ds f
        ∙ ap (λ l. ds ++ l) (run_attempts-flatten failed a cs h last)
        ∙ sym (append_assoc ds (flatten (map (λ p. p.1) failed)) cs)

-- A subscription of an open streamer hands on the candles of every message without a ping of every
-- connection, in order and each once, across any number of connections that cannot be dialed or whose
-- reads fail, up to a last one that it still reads, while its writes succeed and no message makes
-- decodeFrames panic. Of a message with a ping anywhere in it, it hands on nothing.
pub serve-flatten :
    {F : Type 0} (s : Streamer) (symbol resolution : Bytes)
    (failed : List (Attempt F × List (Candle F))) (a : Attempt F) (cs : List (Candle F))
    → s.canceled ≡ false
    → All (λ p. FailsAfter p.0 p.1) failed
    → Reads a cs
    → serve s true (symbol, resolution) (map (λ p. p.0) failed ++ a ∷ [])
      ≡ flatten (map (λ p. p.1) failed) ++ cs
unfolding serve
serve-flatten s symbol resolution failed a cs opened h last =
    rw opened (run_attempts-flatten symbol resolution s.cfg.candle_history failed a cs h last)
