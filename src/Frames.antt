-- ===== src/Frames.antt =====
-- protocol.go, encodeFrame, decodeFrames and heartbeatPong: the length-prefixed frames
-- `~m~<length>~m~<body>` of the WebSocket protocol. encoding/json is a parameter.
pub mod Bounds
pub mod Header
pub mod RoundTrip
pub mod Slices
pub mod Panics
pub mod Heartbeat
pub mod Tests
use mathlib.Core.Option
use tradingview_go.Common.{
  ℕ, zero, suc, ◌+◌, ◌-◌, Bool, true, false, Option, none, some, List, [], ◌∷◌, ◌++◌, ltb, leb,
  ltb_ℤ, sub_ℕ, ◌==◌, if◌then◌else◌, ◌>>=◌, ℤ, pos, negsuc, length, get_or, take, drop,
}
use tradingview_go.Text.{Bytes, codes, index_of, has_prefix}
use tradingview_go.Text.Decimal.{format_nat, atoi}

-- What `Params []any` holds in every message that the program sends.
pub data Param : Type 0 where
  text : Bytes → Param
  int : ℤ → Param

pub record Message : Type 0 where
  pub method : Bytes
  pub params : List Param

abbrev pub marker : Bytes
marker = codes "~m~"

-- `fmt.Sprintf("~m~%d~m~%s", len(body), body)`
unfoldable pub frame : Bytes → Bytes
frame body = marker ++ (format_nat (length body) ++ (marker ++ body))

-- `marshal` is `json.Marshal`; `none` is its error.
unfoldable pub encode_frame : (Message → Option Bytes) → Message → Option Bytes
unfolding frame
encode_frame marshal msg = Option.map frame (marshal msg)

-- What one round of the loop of decodeFrames does: it leaves the loop with some last parts, takes
-- one part off the text, or slices out of range.
pub data Round : Type 0 where
  stop : List Bytes → Round
  part : Bytes → Bytes → Round
  crash : Round

-- The first half of a round: up to the length and behind its second marker; `none` is a `break`.
unfoldable pub header : Bytes → Option (ℤ × Bytes)
header raw = do
  start ← index_of marker raw
  let raw' = drop (start + 3) raw
  end ← index_of marker raw'
  n ← atoi (take end raw')
  some (n, drop (end + 3) raw')

-- `s[:n]`, `s[n:]` and `s[n]`; out of range, where there is nothing, they panic.
unfoldable pub slice_to : Bytes → ℤ → Option Bytes
slice_to s (pos n) = if leb n (length s) then some (take n s) else none
slice_to s (negsuc k) = none

unfoldable pub slice_from : Bytes → ℤ → Option Bytes
slice_from s (pos n) = if leb n (length s) then some (drop n s) else none
slice_from s (negsuc k) = none

unfoldable pub byte_at : Bytes → ℤ → Option ℕ
byte_at s (pos n) = if ltb n (length s) then some (get_or s n 0) else none
byte_at s (negsuc k) = none

-- `n - 1`
abbrev pub less_one : ℤ → ℤ
less_one (pos n) = sub_ℕ n 1
less_one (negsuc k) = negsuc (suc k)

-- `n > 0 && raw[n-1] == '~' && strings.HasPrefix(raw[n:], "m~")`
unfoldable pub is_over : ℤ → Bytes → Option Bool
unfolding slice_from byte_at
is_over n raw =
    if ltb_ℤ (pos 0) n
    then elim (byte_at raw (less_one n)) [
      | none ↦ none
      | some c ↦
          if c == b'~' then Option.map (has_prefix (codes "m~")) (slice_from raw n) else some false
    ]
    else some false

-- `raw[:n]` goes to the parts, and `raw[n:]` is left.
unfoldable pub cut : ℤ → Bytes → Round
unfolding slice_to slice_from
cut n raw = elim (slice_to raw n) [
  | none ↦ crash
  | some p ↦ elim (slice_from raw n) [ none ↦ crash | some rest ↦ part p rest ]
]

module _ (json_valid : Bytes → Bool) where
  -- The second half.
  unfoldable pub body : ℤ → Bytes → Round
  unfolding is_over cut
  body n raw =
      if ltb_ℤ (pos (length raw)) n
      then stop (if json_valid raw then raw ∷ [] else [])
      else elim (is_over n raw) [
        | none ↦ crash
        | some true ↦ cut (less_one n) raw
        | some false ↦ cut n raw
      ]

  unfoldable pub round : Bytes → Round
  round raw = elim (header raw) [ none ↦ stop [] | some (n, raw') ↦ body n raw' ]

-- The loop's end: the parts, or a panic of the goroutine.
pub data Decoded : Type 0 where
  done : List Bytes → Decoded
  panics : Decoded
  out_of_fuel : Decoded

module _ (json_valid : Bytes → Bool) where
  unfoldable pub decode_loop : ℕ → Bytes → List Bytes → Decoded
  decode_loop zero raw out = out_of_fuel
  decode_loop (suc fuel) [] out = done out
  decode_loop (suc fuel) (c ∷ raw) out = elim (round json_valid (c ∷ raw)) [
    | stop parts ↦ done (out ++ parts)
    | part p rest ↦ decode_loop fuel rest (out ++ p ∷ [])
    | crash ↦ panics
  ]

  -- Each round takes a header off the text, so its length bounds the rounds.
  unfoldable pub decode_frames : Bytes → Decoded
  decode_frames raw = decode_loop (suc (length raw)) raw []

abbrev pub tag : Bytes
tag = codes "~h~"

-- The pong that answers the first heartbeat of a message.
unfoldable pub heartbeat_pong : Bytes → Option Bytes
heartbeat_pong raw = do
  i ← index_of tag raw
  let rest = drop (i + 3) raw
  let end = Option.get_or (index_of (codes "~") rest) (length rest)
  some (frame (tag ++ take end rest))
