-- ===== src/Stream.antt =====
-- stream.go: the streamer, Subscribe's checks, one connection of a stream, and the loop that reconnects.
-- What dial returns and what the reads give are arguments; `callback` says whether onCandle is set, and
-- the candles handed to it are collected in their order.
pub mod Fetched
pub mod Delivery
pub mod Tests
use tradingview_go.Common.{
  ℕ, Bool, true, false, Option, none, some, List, [], ◌∷◌, ◌++◌, if◌then◌else◌, ℤ,
}
use tradingview_go.Text.{Bytes, codes, beq}
use tradingview_go.Types.{Candle}
use tradingview_go.Errors.{Error, Result, ok, err, new_err, symbol_unknown, invalid_resolution}
use tradingview_go.Config.{Config, with_defaults}
use tradingview_go.Symbols.{normalize_symbol, normalize_resolution}
use tradingview_go.Frames.{Decoded, done, panics, out_of_fuel, decode_frames, heartbeat_pong}
use tradingview_go.Conn.{
  Outside, Event, canceled, read_fails, got, create_session, resolve, create_series, method_of,
  is_data_method, data_candles, write_text, send,
}

-- A Streamer: `canceled` is the state of its context.
pub record Streamer : Type 0 where
  pub cfg : Config
  pub canceled : Bool

unfoldable pub new_streamer : Config → Streamer
new_streamer cfg = record { cfg = with_defaults cfg; canceled = false }

-- Close, which then waits for the goroutines.
unfoldable pub close_streamer : Streamer → Streamer
close_streamer s = record s { canceled = true }

-- Subscribe up to the start of its goroutine: the symbol and the resolution that it streams.
unfoldable pub subscribe : Bytes → Bytes → Result (Bytes × Bytes)
subscribe symbol resolution =
    let sym = normalize_symbol symbol in
    let res = normalize_resolution resolution in
    if beq sym [] then err (new_err symbol_unknown (codes "symbol is empty") none) else elim res [
      | none ↦ err (new_err invalid_resolution (codes "unknown resolution: " ++ resolution) none)
      | some r ↦ ok (sym, r)
    ]

-- How far a stream is: it waits for the next message, has returned the context's error, one of dial or
-- another one, or has panicked. The last constructor is the fuel of decodeFrames.
pub data Stage : Type 0 where
  reading : Stage
  context_over : Bytes → Stage
  not_dialed : Error → Stage
  stopped : Bytes → Stage
  crashed no_fuel : Stage

unfoldable pub is_reading : Stage → Bool
is_reading reading = true
is_reading _ = false

-- A stream with the texts that it has written and the candles that it has delivered.
pub record Stream (F : Type 0) : Type 0 where
  pub stage : Stage
  pub sent : List Bytes
  pub delivered : List (Candle F)

-- One connection of a stream: what dial returns, the ids of its session and the events of its loop.
pub record Attempt (F : Type 0) : Type 0 where
  pub out : Outside F
  pub dialed : Result ℕ
  pub chart_id : Bytes
  pub series_id : Bytes
  pub events : List Event

module _ {F : Type 0} (out : Outside F) (callback : Bool) where
  -- One round of the loop over the frames of a message.
  unfoldable pub frame_candles : Bytes → List (Candle F)
  frame_candles body = elim (out.unmarshal body) [
    | none ↦ []
    | some env ↦ if is_data_method (method_of env) then data_candles out env else []
  ]

  unfoldable pub deliver : List Bytes → List (Candle F)
  unfolding frame_candles
  deliver [] = []
  deliver (body ∷ bodies) = (if callback then frame_candles body else []) ++ deliver bodies

  -- What a round does with its message.
  unfoldable pub stream_message : Bytes → Stream F → Stream F
  unfolding deliver
  stream_message raw s = elim (heartbeat_pong raw) [
    | some pong ↦
        let (failed, sent') = write_text out pong s.sent in
        elim failed [
          | some cause ↦ record s { stage = stopped cause; sent = sent' }
          | none ↦ record s { sent = sent' }
        ]
    | none ↦ elim (decode_frames out.json_valid raw) [
      | panics ↦ record s { stage = crashed }
      | out_of_fuel ↦ record s { stage = no_fuel }
      | done bodies ↦ record s { delivered = s.delivered ++ deliver bodies }
    ]
  ]

  -- The loop of stream; it goes on while the stage is `reading`.
  unfoldable pub stream_loop : List Event → Stream F → Stream F
  unfolding stream_message
  stream_loop [] s = s
  stream_loop (canceled cause ∷ events) s = record s { stage = context_over cause }
  stream_loop (read_fails cause ∷ events) s = record s { stage = stopped cause }
  stream_loop (got raw ∷ events) s =
      let s' = stream_message raw s in
      let rest = stream_loop events s' in if is_reading s'.stage then rest else s'

  module _ (symbol resolution : Bytes) (history : ℤ) where
    -- stream after its dial.
    unfoldable pub on_connection : Bytes → Bytes → List Event → List Bytes → Stream F
    unfolding stream_loop
    on_connection chart_id series_id events sent =
        let (failed, created) = send out (create_session chart_id) sent in
        let stop : Bytes → List Bytes → Stream F =
          λ cause sent'. record { stage = stopped cause; sent = sent'; delivered = [] } in
        elim failed [
          | some cause ↦ stop cause created
          | none ↦
              let (failed', resolved) = send out (resolve chart_id symbol) created in
              elim failed' [
                | some cause ↦ stop cause resolved
                | none ↦
                    let (failed'', asked) =
                      send out (create_series chart_id series_id resolution history) resolved in
                    elim failed'' [
                      | some cause ↦ stop cause asked
                      | none ↦
                          stream_loop events
                            (record { stage = reading; sent = asked; delivered = [] })
                    ]
              ]
        ]

module _ {F : Type 0} (callback : Bool) (symbol resolution : Bytes) (history : ℤ) where
  unfoldable pub stream : Attempt F → List Bytes → Stream F
  unfolding on_connection
  stream a sent = elim a.dialed [
    | err e ↦ record { stage = not_dialed e; sent = sent; delivered = [] }
    | ok c ↦
        on_connection a.out callback symbol resolution history a.chart_id a.series_id a.events sent
  ]

  -- The loop of Subscribe's goroutine over the connections that it makes while the context is open: the
  -- candles that it has delivered. A stream that still reads has no successor, the end of the context
  -- ends the loop, and a panic the program.
  unfoldable pub run_attempts : List (Attempt F) → List (Candle F)
  unfolding stream
  run_attempts [] = []
  run_attempts (a ∷ attempts) =
      let s = stream a [] in
      let later = run_attempts attempts in
      elim s.stage [
        | reading ↦ s.delivered
        | context_over cause ↦ s.delivered
        | crashed ↦ s.delivered
        | no_fuel ↦ s.delivered
        | not_dialed e ↦ s.delivered ++ later
        | stopped cause ↦ s.delivered ++ later
      ]

-- The goroutine of Subscribe.
unfoldable pub serve :
    {F : Type 0} → Streamer → Bool → Bytes × Bytes → List (Attempt F) → List (Candle F)
unfolding run_attempts
serve s callback (symbol, resolution) attempts =
    if s.canceled then [] else run_attempts callback symbol resolution s.cfg.candle_history attempts
