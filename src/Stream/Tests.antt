-- ===== src/Stream/Tests.antt =====
-- A subscription over connections of which one cannot be dialed and one fails.
use mathlib.Core.List.{flat_map, flatten}
use tradingview_go.Common.{ℕ, ◌≡◌, refl, inl, inr, true, none, List, [], ◌∷◌, ◌++◌, ℤ, pos, arith}
use tradingview_go.Text.{Bytes, codes, index_of}
use tradingview_go.Types.{Candle}
use tradingview_go.Errors.{Result, ok, err, new_err, upstream_http}
use tradingview_go.Frames.{heartbeat_pong}
use tradingview_go.Conn.{Event, got, read_fails}
use tradingview_go.Conn.Tests.{candle, outside, data_message, decoded, answered}
use tradingview_go.Config.{default_config}
use tradingview_go.Stream.{Attempt, new_streamer, on_connection, serve}
use tradingview_go.Stream.Fetched
use tradingview_go.Stream.Delivery
use tradingview_go.Stream.Delivery.{message_candles, FailsAfter, Reads, IsConnected}

on_connection-fetch_series_example :
    (later : List (Candle ℤ)) × ((on_connection outside true
        (codes "AAPL")
        (codes "D")
        (pos 5)
        (codes "cs_1")
        (codes "sds_1")
        (got data_message ∷ [])
        []).delivered
      ≡ (candle ∷ []) ++ later)
on_connection-fetch_series_example =
    Fetched.on_connection-fetch_series outside (codes "cs_1") (codes "sds_1") (codes "AAPL")
      (codes "D") (pos 5) (got data_message ∷ []) [] (answered (codes "AAPL") (codes "D") (pos 5))

abbrev attempt : Result ℕ → List Event → Attempt ℤ
attempt dialed events = record {
  out = outside;
  dialed = dialed;
  chart_id = codes "cs_1";
  series_id = codes "sds_1";
  events = events;
}

abbrev refused : Attempt ℤ
refused = attempt (err (new_err upstream_http (codes "dial") none)) []

-- Two messages, and then the read fails.
abbrev dropped : Attempt ℤ
dropped = attempt (ok 1) (got data_message ∷ got data_message ∷ read_fails (codes "EOF") ∷ [])

abbrev live : Attempt ℤ
live = attempt (ok 2) (got (codes "~m~4~m~~h~1") ∷ [])

abbrev candles_of : List Bytes → List (Candle ℤ)
candles_of raws = flat_map (message_candles outside) raws

dropped-FailsAfter : FailsAfter dropped (candles_of (data_message ∷ data_message ∷ []))
dropped-FailsAfter = inr (
  data_message ∷ data_message ∷ [],
  codes "EOF",
  [],
  record { conn = 1; dialed = refl; writes = λ n. refl; marshals = λ m. (m.method, refl) },
  refl,
  (inr (_, decoded), (inr (_, decoded), tt)),
  refl,
)

live-Reads : Reads live (candles_of (codes "~m~4~m~~h~1" ∷ []))
unfolding heartbeat_pong index_of
live-Reads = (
  codes "~m~4~m~~h~1" ∷ [],
  record { conn = 2; dialed = refl; writes = λ n. refl; marshals = λ m. (m.method, refl) },
  refl,
  (inl (λ h. ground arith), tt),
  refl,
)

serve-flatten_example :
    serve
      (new_streamer default_config)
      true
      (codes "AAPL", codes "D")
      (refused ∷ dropped ∷ live ∷ [])
    ≡ flatten ([] ∷ candles_of (data_message ∷ data_message ∷ []) ∷ [])
      ++ candles_of (codes "~m~4~m~~h~1" ∷ [])
unfolding new_streamer
serve-flatten_example =
    Delivery.serve-flatten (new_streamer default_config) (codes "AAPL") (codes "D")
      ((refused, []) ∷ (dropped, candles_of (data_message ∷ data_message ∷ [])) ∷ []) live
      (candles_of (codes "~m~4~m~~h~1" ∷ [])) refl
      (inl (new_err upstream_http (codes "dial") none, refl, refl), (dropped-FailsAfter, tt))
      live-Reads
