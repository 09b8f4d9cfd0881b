-- ===== src/Frames/Tests.antt =====
-- Runs of the frame functions on small messages, and the theorems at concrete inputs.
use tradingview_go.Common.{
  ◌≡◌, ◌≢◌, refl, Bool, true, false, Option, some, [], ◌∷◌, ◌++◌, arith, inr,
}
use tradingview_go.Text.{Bytes, codes, index_of, has_prefix}
use tradingview_go.Text.Decimal.{format_nat, atoi}
use tradingview_go.Frames.{
  Message, text, frame, header, round, done, panics, out_of_fuel, body, is_over, cut, slice_to,
  slice_from, byte_at, decode_loop, decode_frames, heartbeat_pong,
}
use tradingview_go.Frames.Panics
use tradingview_go.Frames.Panics.{stream, negative}
use tradingview_go.Frames.RoundTrip
use tradingview_go.Frames.RoundTrip.{Sent, batch, bodies, encode_all}
use tradingview_go.Frames.Slices
use tradingview_go.Frames.Slices.{Slices}

-- A stand-in for `json.Valid`: texts that begin with a brace.
abbrev braced : Bytes → Bool
braced = has_prefix (codes "{")

-- A stand-in for `json.Marshal`: the method's name, quoted.
abbrev quoted : Message → Option Bytes
quoted m = some (codes "\"" ++ (m.method ++ codes "\""))

abbrev auth : Message
auth = record { method = codes "set_auth_token"; params = text (codes "x") ∷ [] }

-- TestDecodeFramesBatched, with the right lengths.
two_frames :
    decode_frames braced (codes "~m~9~m~{\"a\":\"b\"}~m~9~m~{\"c\":\"d\"}")
    ≡ done (codes "{\"a\":\"b\"}" ∷ codes "{\"c\":\"d\"}" ∷ [])
unfolding decode_frames decode_loop round header body is_over cut slice_to slice_from byte_at
    index_of atoi
two_frames = refl

-- TestDecodeFramesBatched as it stands: both headers count one byte too many.
long_headers :
    decode_frames braced (codes "~m~10~m~{\"a\":\"b\"}~m~10~m~{\"c\":\"d\"}")
    ≡ done (codes "{\"a\":\"b\"}" ∷ codes "{\"c\":\"d\"}" ∷ [])
unfolding decode_frames decode_loop round header body is_over cut slice_to slice_from byte_at
    index_of atoi
long_headers = refl

-- TestHeartbeatPong
pong_42 : heartbeat_pong (codes "~m~5~m~~h~42") ≡ some (codes "~m~5~m~~h~42")
unfolding heartbeat_pong index_of frame format_nat
pong_42 = refl

decode_frames-encode_all_example :
    (raw : Bytes) × (encode_all quoted (auth ∷ auth ∷ []) ≡ some raw)
    × (decode_frames braced raw
        ≡ done (codes "\"set_auth_token\"" ∷ codes "\"set_auth_token\"" ∷ []))
decode_frames-encode_all_example =
    RoundTrip.decode_frames-encode_all braced quoted (auth ∷ auth ∷ []) refl (omega arith)

abbrev sent : Sent
sent = (false, codes "{1}") ∷ (true, codes "ab") ∷ (false, codes "{}") ∷ []

decode_frames-batch_example : decode_frames braced (batch sent) ≡ done (bodies sent)
unfolding has_prefix
decode_frames-batch_example =
    RoundTrip.decode_frames-batch braced sent (omega arith, (omega arith, (omega arith, inr refl)))

decode_frames_ends_example : decode_frames braced (codes "~m~3~m~{}") ≢ out_of_fuel
decode_frames_ends_example = Slices.decode_frames_ends braced (codes "~m~3~m~{}")

decode_frames-Slices_example :
    Slices
      (codes "{\"a\":\"b\"}" ∷ codes "{\"c\":\"d\"}" ∷ [])
      (codes "~m~9~m~{\"a\":\"b\"}~m~9~m~{\"c\":\"d\"}")
decode_frames-Slices_example =
    Slices.decode_frames-Slices braced (codes "~m~9~m~{\"a\":\"b\"}~m~9~m~{\"c\":\"d\"}") two_frames

decode_frames-negative_example :
    decode_frames braced (stream (codes "{}" ∷ []) (negative 4 (codes "{}"))) ≡ panics
decode_frames-negative_example =
    Panics.decode_frames-negative braced 4 (codes "{}") (omega arith) (codes "{}" ∷ [])
      (omega arith)
