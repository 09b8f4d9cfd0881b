-- ===== src/Conn.antt =====
-- conn.go: dialing, the handshake and one fetch over a WebSocket. The network is an argument: what a
-- write returns, and what the reads give. encoding/json and gorilla/websocket are parameters.
pub mod Sent
pub mod Answers
pub mod Waits
pub mod Sessions
pub mod Dial
pub mod Tests
use tradingview_go.Common.{
  ℕ, zero, suc, ◌+◌, ◌-◌, Bool, true, false, ◌||◌, Option, none, some, List, [], ◌∷◌, ◌++◌, leb,
  if◌then◌else◌, ℤ, pos, length, take, ◌==◌,
}
use tradingview_go.Text.{Bytes, codes, beq, index_of}
use tradingview_go.Types.{Candle}
use tradingview_go.Errors.{
  Error, Result, ok, err, new_err, symbol_unknown, upstream_timeout, upstream_protocol,
  upstream_http,
}
use tradingview_go.Frames.{
  Message, text, int, encode_frame, decode_frames, Decoded, done, panics, out_of_fuel,
  heartbeat_pong,
}
use tradingview_go.Payload.{
  Json, Items, Fields, json_string, json_array, no_items, item, no_fields, field_of, as_object,
  nested_array, parse_candles,
}

unfoldable pub truncate : Bytes → ℕ → Bytes
truncate s n = if leb (length s) n then s else take n s ++ codes "..."

-- What the code has from outside: encoding/json, the float64 type, and the answer of the n-th write on
-- the connection, `none` where it succeeds.
pub record Outside (F : Type 0) : Type 0 where
  pub marshal : Message → Option Bytes
  pub marshal_cause : Bytes
  pub json_valid : Bytes → Bool
  pub unmarshal : Bytes → Option (Fields F)
  pub float_zero : F
  pub to_int : F → ℤ
  pub write : ℕ → Option Bytes

-- A call that returns, or a panic; the last constructor is the fuel of decodeFrames.
pub data Outcome (A : Type 0) : Type 0 where
  returns : Result A → Outcome A
  crashes no_fuel : Outcome A

-- One round of the loop of fetchSeries before its deadline: the context is over, the read fails, or a
-- message comes.
pub data Event : Type 0 where
  canceled : Bytes → Event
  read_fails : Bytes → Event
  got : Bytes → Event

pub data Reading (F : Type 0) : Type 0 where
  skip : Reading F
  symbol_error : Error → Reading F
  candles : List (Candle F) → Reading F

abbrev pub create_session : Bytes → Message
create_session chart_id = record {
  method = codes "chart_create_session";
  params = text chart_id ∷ text [] ∷ [];
}

abbrev pub delete_session : Bytes → Message
delete_session chart_id = record {
  method = codes "chart_delete_session";
  params = text chart_id ∷ [];
}

abbrev pub resolve : Bytes → Bytes → Message
resolve chart_id symbol = record {
  method = codes "resolve_symbol";
  params =
      text chart_id
      ∷ text (codes "sds_sym_1")
      ∷ text (codes "={\"symbol\":\"" ++ (symbol ++ codes "\",\"adjustment\":\"splits\"}"))
      ∷ [];
}

abbrev pub create_series : Bytes → Bytes → Bytes → ℤ → Message
create_series chart_id series_id resolution bars = record {
  method = codes "create_series";
  params =
      text chart_id
      ∷ text series_id
      ∷ text (codes "sds_1")
      ∷ text (codes "sds_sym_1")
      ∷ text resolution
      ∷ int bars
      ∷ text []
      ∷ [];
}

unfoldable pub is_error_method : Bytes → Bool
is_error_method m =
    beq m (codes "symbol_error") || (beq m (codes "series_error") || beq m (codes "critical_error"))

unfoldable pub is_data_method : Bytes → Bool
is_data_method m = beq m (codes "du") || beq m (codes "timescale_update")

module _ {F : Type 0} where
  -- `params[1].(map[string]any)`, where there are two params; a value of another type gives the nil map.
  unfoldable pub payload_of_params : Items F → Option (Fields F)
  payload_of_params (item _ (item v rest)) =
      some (elim (as_object v) [ none ↦ no_fields | some m ↦ m ])
  payload_of_params _ = none

  -- `env["m"].(string)`
  unfoldable pub method_of : Fields F → Bytes
  method_of env = elim (field_of (codes "m") env) [ some (json_string s) ↦ s | _ ↦ [] ]

module _ {F : Type 0} (out : Outside F) where
  -- A text handed to WriteMessage, after those in `sent`: the error, and the texts handed over by now.
  unfoldable pub write_text : Bytes → List Bytes → Option Bytes × List Bytes
  write_text body sent = (out.write (length sent), sent ++ body ∷ [])

  unfoldable pub send : Message → List Bytes → Option Bytes × List Bytes
  send msg sent = elim (encode_frame out.marshal msg) [
    | none ↦ (some out.marshal_cause, sent)
    | some body ↦ write_text body sent
  ]

  -- The candles of a message with data.
  unfoldable pub data_candles : Fields F → List (Candle F)
  data_candles env = elim (nested_array (codes "p") env) [
    | none ↦ []
    | some params ↦ elim (payload_of_params params) [
      | none ↦ []
      | some payload ↦ parse_candles out.float_zero out.to_int payload
    ]
  ]

  -- One round of the loop of fetchSeries over the frames of a message.
  unfoldable pub read_frame : Bytes → Reading F
  read_frame body = elim (out.unmarshal body) [
    | none ↦ skip
    | some env ↦
        let method = method_of env in
        if is_error_method method
        then symbol_error
            (new_err symbol_unknown (method ++ (codes ": " ++ truncate body 200)) none)
        else if is_data_method method
        then elim (data_candles env) [ [] ↦ skip | c ∷ cs ↦ candles (c ∷ cs) ]
        else skip
  ]

  -- That loop; `none` where it goes through.
  unfoldable pub read_frames : List Bytes → Option (Result (List (Candle F)))
  read_frames [] = none
  read_frames (body ∷ rest) = elim (read_frame body) [
    | skip ↦ read_frames rest
    | symbol_error e ↦ some (err e)
    | candles cs ↦ some (ok cs)
  ]

  -- What a message's frames come to; `none` where the loop goes on.
  unfoldable pub read_bodies : Decoded → Option (Outcome (List (Candle F)))
  read_bodies panics = some crashes
  read_bodies out_of_fuel = some no_fuel
  read_bodies (done bodies) = elim (read_frames bodies) [
    | none ↦ none
    | some res ↦ some (returns res)
  ]

  -- What a round does with its message: a ping is answered, and nothing else in it is read.
  unfoldable pub read_message : Bytes → List Bytes → Option (Outcome (List (Candle F))) × List Bytes
  read_message raw sent = elim (heartbeat_pong raw) [
    | some pong ↦
        let (failed, sent') = write_text pong sent in
        elim failed [
          | some cause ↦
              (some (returns (err (new_err upstream_protocol (codes "pong") (some cause)))), sent')
          | none ↦ (none, sent')
        ]
    | none ↦ (read_bodies (decode_frames out.json_valid raw), sent)
  ]

  -- The loop of fetchSeries over the rounds that begin before the deadline.
  unfoldable pub read_loop : List Event → List Bytes → Outcome (List (Candle F)) × List Bytes
  read_loop [] sent = (
    returns (err (new_err upstream_timeout (codes "no candle data within fetch timeout") none)),
    sent,
  )
  read_loop (canceled cause ∷ events) sent =
      (returns (err (new_err upstream_timeout (codes "context canceled") (some cause))), sent)
  read_loop (read_fails cause ∷ events) sent =
      (returns (err (new_err upstream_protocol (codes "read") (some cause))), sent)
  read_loop (got raw ∷ events) sent =
      let (res, sent') = read_message raw sent in
      elim res [ some outcome ↦ (outcome, sent') | none ↦ read_loop events sent' ]

  module _ (chart_id series_id symbol resolution : Bytes) (bars : ℤ) (events : List Event) where
    -- fetchSeries between the create of its session and the deferred delete.
    unfoldable pub in_session : List Bytes → Outcome (List (Candle F)) × List Bytes
    in_session sent =
        let (failed, sent') = send (resolve chart_id symbol) sent in
        elim failed [
          | some cause ↦ (
            returns (err (new_err upstream_protocol (codes "resolve symbol") (some cause))),
            sent',
          )
          | none ↦
              let (failed', sent'') =
                send (create_series chart_id series_id resolution bars) sent' in
              elim failed' [
                | some cause ↦ (
                  returns (err (new_err upstream_protocol (codes "create series") (some cause))),
                  sent'',
                )
                | none ↦ read_loop events sent''
              ]
        ]

    unfoldable pub fetch_series : List Bytes → Outcome (List (Candle F)) × List Bytes
    fetch_series sent =
        let (failed, sent') = send (create_session chart_id) sent in
        elim failed [
          | some cause ↦ (
            returns (err (new_err upstream_protocol (codes "create chart session") (some cause))),
            sent',
          )
          | none ↦
              let (outcome, sent'') = in_session sent' in
              (outcome, (send (delete_session chart_id) sent'').1)
        ]
