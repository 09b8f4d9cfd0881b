-- ===== src/Conn/Tests.antt =====
-- A connection on which every write succeeds, and the theorems at it. A float is an integer.
use tradingview_go.Common.{
  ℕ, zero, suc, ◌≡◌, refl, true, none, some, List, [], ◌∷◌, ◌++◌, arith, ℤ, pos, inl, inr,
}
use tradingview_go.Text.{Bytes, codes, beq, index_of}
use tradingview_go.Types.{Candle}
use tradingview_go.Errors.{ok}
use tradingview_go.Frames.{
  decode_loop, round, header, body, frame, encode_frame, decode_frames, done, heartbeat_pong,
}
use tradingview_go.Payload.{
  field_of, nested_array, as_array, parse_candles, nested_object, as_object, parse_fields,
  parse_series, parse_bars, bar_candle, candle_of, as_float, Fields, json_string, json_array,
  json_object, json_null, no_items, item, no_fields, field,
}
use tradingview_go.Text.Decimal.{atoi}
use tradingview_go.Payload.Series.{payload_of}
use tradingview_go.Conn.{
  is_data_method, method_of, data_candles, payload_of_params, Outside, returns, Event, got,
  fetch_series,
}
use tradingview_go.Conn.Sent
use tradingview_go.Conn.Answers
use tradingview_go.Conn.Answers.{AnyOf, Brings, EventBrings}
use tradingview_go.Conn.Waits
use tradingview_go.Conn.Dial
use tradingview_go.Conn.Sessions
use tradingview_go.Conn.Sessions.{OfSession}
use tradingview_go.Conn.Dial.{Handshake, dial, Dialed}

abbrev pub candle : Candle ℤ
candle = record {
  timestamp = pos 5;
  open_ = pos 2;
  high = pos 4;
  low = pos 1;
  close = pos 3;
  volume = pos 9;
}

-- The message with the candle.
abbrev update : Fields ℤ
update = field (codes "m") (json_string (codes "timescale_update")) (
    field (codes "p")
      (json_array (
        item (json_string (codes "cs")) (
          item (json_object (payload_of (λ x. x) ((codes "sds_1", (json_null, candle) ∷ []) ∷ [])))
            no_items)))
      no_fields)

-- Every text is JSON for that message, and every message is written as its method.
abbrev pub outside : Outside ℤ
outside = record {
  marshal = λ m. some m.method;
  marshal_cause = [];
  json_valid = λ s. true;
  unmarshal = λ s. some update;
  float_zero = pos 0;
  to_int = λ x. x;
  write = λ n. none;
}

brings : Brings outside (candle ∷ []) (codes "{}")
unfolding beq is_data_method method_of field_of data_candles nested_array as_array payload_of_params
    parse_candles nested_object as_object parse_fields parse_series parse_bars bar_candle candle_of
    as_float
brings = record {
  env = update;
  decoded = refl;
  data_method = refl;
  carries = refl;
  some_candles = λ h. ground arith;
}

-- A ping, and then the message.
abbrev ping : Event
ping = got (codes "~m~4~m~~h~1")

pub decoded : decode_frames outside.json_valid (codes "~m~2~m~{}") ≡ done (codes "{}" ∷ [])
unfolding decode_frames decode_loop round header index_of atoi body
decoded = refl

fetch_series-answers_example :
    (fetch_series outside
      (codes "cs_1")
      (codes "sds_1")
      (codes "AAPL")
      (codes "D")
      (pos 5)
      (ping ∷ got (codes "~m~2~m~{}") ∷ [])
      []).0
    ≡ returns (ok (candle ∷ []))
unfolding heartbeat_pong index_of
fetch_series-answers_example =
    Waits.fetch_series-answers outside (λ n. refl) (λ m. (m.method, refl)) (codes "cs_1")
      (codes "sds_1") (codes "AAPL") (codes "D") (pos 5) (ping ∷ []) [] (codes "~m~2~m~{}") [] [] []
      (codes "{}") (inl (λ h. ground arith), tt) refl decoded tt brings

-- A fetch that reads the message at once.
abbrev pub data_message : Bytes
data_message = codes "~m~2~m~{}"

pub answered :
    (symbol resolution : Bytes) (bars : ℤ)
    → (fetch_series outside
        (codes "cs_1")
        (codes "sds_1")
        symbol
        resolution
        bars
        (got data_message ∷ [])
        []).0
      ≡ returns (ok (candle ∷ []))
unfolding heartbeat_pong index_of
answered symbol resolution bars =
    Waits.fetch_series-answers outside (λ n. refl) (λ m. (m.method, refl)) (codes "cs_1")
      (codes "sds_1") symbol resolution bars [] [] data_message [] [] [] (codes "{}") tt refl
      decoded tt brings

fetch_series-Brings_example : AnyOf (EventBrings outside (candle ∷ [])) (got data_message ∷ [])
fetch_series-Brings_example =
    Answers.fetch_series-Brings outside (codes "cs_1") (codes "sds_1") (codes "AAPL") (codes "D")
      (pos 5) (got data_message ∷ []) [] (answered (codes "AAPL") (codes "D") (pos 5))

fetch_series-deletes_example :
    (between : List Bytes) × ((fetch_series outside
        (codes "cs_1")
        (codes "sds_1")
        (codes "AAPL")
        (codes "D")
        (pos 5)
        (ping ∷ [])
        []).1
      ≡ []
        ++ frame (codes "chart_create_session")
          ∷ (between ++ frame (codes "chart_delete_session") ∷ []))
unfolding encode_frame
fetch_series-deletes_example =
    Sent.fetch_series-deletes outside (codes "cs_1") (codes "sds_1") (codes "AAPL") (codes "D")
      (pos 5) (ping ∷ []) [] (frame (codes "chart_create_session"))
      (frame (codes "chart_delete_session")) refl refl refl

-- The first attempt fails, and the second connection is 1.
abbrev shakes : ℕ → Handshake ℤ
shakes zero = record { failed = some (codes "refused"); hello = inl []; conn = 0; out = outside }
shakes (suc n) = record {
  failed = none;
  hello = inr (codes "~m~2~m~{}");
  conn = suc n;
  out = outside;
}

dial-Dialed_example :
    Dialed (λ n. none) shakes (codes "token") 2 (dial (λ n. none) shakes (codes "token")).0
dial-Dialed_example = Dial.dial-Dialed (λ n. none) shakes (codes "token")

-- The message names the session cs, and the fetch has made cs_1.
of_session : OfSession outside (codes "cs") (candle ∷ []) (codes "{}")
unfolding beq is_data_method method_of field_of nested_array as_array parse_candles nested_object
    as_object parse_fields parse_series parse_bars bar_candle candle_of as_float
of_session = record {
  env = update;
  payload = payload_of (λ x. x) ((codes "sds_1", (json_null, candle) ∷ []) ∷ []);
  rest = no_items;
  decoded = refl;
  data_method = refl;
  params = refl;
  parsed = refl;
  some_candles = λ h. ground arith;
}

fetch_series-OfSession_example :
    (fetch_series outside
      (codes "cs_1")
      (codes "sds_1")
      (codes "AAPL")
      (codes "D")
      (pos 5)
      (got data_message ∷ [])
      []).0
    ≡ returns (ok (candle ∷ []))
unfolding heartbeat_pong index_of
fetch_series-OfSession_example =
    Sessions.fetch_series-OfSession outside (λ n. refl) (λ m. (m.method, refl)) (codes "cs_1")
      (codes "sds_1") (codes "AAPL") (codes "D") (pos 5) (codes "cs") [] [] data_message [] [] []
      (codes "{}") (λ h. ground arith) tt refl decoded tt of_session
