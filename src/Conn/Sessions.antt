-- ===== src/Conn/Sessions.antt =====
-- fetchSeries and the session that a data message names.
use tradingview_go.Common.{ℕ, ◌≡◌, ◌≢◌, true, none, some, List, [], ◌∷◌, ◌++◌, ℤ, All}
use tradingview_go.Text.{Bytes, codes}
use tradingview_go.Types.{Candle}
use tradingview_go.Errors.{ok}
use tradingview_go.Frames.{Message, decode_frames, done, heartbeat_pong}
use tradingview_go.Payload.{
  Fields, Items, json_string, json_object, item, nested_array, as_object, parse_candles,
}
use tradingview_go.Conn.{
  Outside, returns, Event, got, method_of, is_data_method, data_candles, payload_of_params,
  read_frame, skip, fetch_series,
}
use tradingview_go.Conn.Answers.{Brings}
use tradingview_go.Conn.Waits.{IsIdle, fetch_series-answers}

module _ {F : Type 0} (out : Outside F) where
  -- This frame is a message with data for a chart session, and these are its candles.
  pub record OfSession (session : Bytes) (cs : List (Candle F)) (body : Bytes) : Type 0 where
    pub env : Fields F
    pub payload : Fields F
    pub rest : Items F
    pub decoded : out.unmarshal body ≡ some env
    pub data_method : is_data_method (method_of env) ≡ true
    pub params :
        nested_array (codes "p") env
        ≡ some (item (json_string session) (item (json_object payload) rest))
    pub parsed : parse_candles out.float_zero out.to_int payload ≡ cs
    pub some_candles : cs ≢ []

  OfSession-Brings :
      (session : Bytes) (body : Bytes) {cs : List (Candle F)}
      → OfSession session cs body
      → Brings out cs body
  unfolding data_candles payload_of_params as_object
  OfSession-Brings session body m = record {
    env = m.env;
    decoded = m.decoded;
    data_method = m.data_method;
    carries = rw (m.params, data_candles) m.parsed;
    some_candles = m.some_candles;
  }

  module _ (writes : (n : ℕ) → out.write n ≡ none)
      (marshals : (m : Message) → (body : Bytes) × (out.marshal m ≡ some body))
      (chart_id series_id symbol resolution : Bytes) (bars : ℤ) where
    -- While its messages are written, fetchSeries does not look at the session that a data message
    -- names: it returns the candles of the first data message that comes behind pings and messages
    -- without errors and data, also where that names another session than its own.
    pub fetch_series-OfSession :
        (other : Bytes) (before after : List Event) (raw : Bytes) (sent xs ys : List Bytes)
        (body : Bytes) {cs : List (Candle F)}
        → other ≢ chart_id
        → All (IsIdle out) before
        → heartbeat_pong raw ≡ none
        → decode_frames out.json_valid raw ≡ done (xs ++ body ∷ ys)
        → All (λ b. read_frame out b ≡ skip) xs
        → OfSession other cs body
        → (fetch_series out chart_id series_id symbol resolution bars
            (before ++ got raw ∷ after)
            sent).0
          ≡ returns (ok cs)
    fetch_series-OfSession other before after raw sent xs ys body another idle quiet d h m =
        fetch_series-answers out writes marshals chart_id series_id symbol resolution bars before
          after raw sent xs ys body idle quiet d h (OfSession-Brings other body m)
