-- ===== src/Payload/Series.antt =====
-- What parseCandles reads out of a well-formed payload.
use tradingview_go.Common.{◌≡◌, ◌≢◌, refl, ap, none, some, List, [], ◌∷◌, ◌++◌, arith, ℤ, All}
use tradingview_go.Text.{Bytes, codes, beq, beq_iff}
use tradingview_go.Types.{Candle}
use tradingview_go.Payload.{
  Json, Items, Fields, json_number, json_array, json_object, no_items, item, no_fields, field,
  field_of, as_object, as_array, nested_object, nested_array, as_float, candle_of, bar_candle,
  parse_bars, parse_series, parse_fields, parse_candles,
}

-- The shape of the upstream's messages: a bar with its index and its values, a series of bars, and
-- the series under their names.
module _ {F : Type 0} (from_int : ℤ → F) where
  abbrev pub bar_of : Json F → Candle F → Json F
  bar_of index c = json_object (
      field (codes "i") index (
        field (codes "v")
          (json_array (
            item (json_number (from_int c.timestamp)) (
              item (json_number c.open_) (
                item (json_number c.high) (
                  item (json_number c.low)
                    (item (json_number c.close) (item (json_number c.volume) no_items)))))))
          no_fields))

  abbrev pub bars_of : List (Json F × Candle F) → Items F
  bars_of [] = no_items
  bars_of ((index, c) ∷ l) = item (bar_of index c) (bars_of l)

  abbrev pub payload_of : List (Bytes × List (Json F × Candle F)) → Fields F
  payload_of [] = no_fields
  payload_of ((name, l) ∷ rest) =
      field name (json_object (field (codes "s") (json_array (bars_of l)) no_fields))
        (payload_of rest)

module _ {F : Type 0} where
  abbrev candles_in : List (Json F × Candle F) → List (Candle F)
  candles_in [] = []
  candles_in ((index, c) ∷ l) = c ∷ candles_in l

  -- The candles of all series, in order.
  abbrev pub all_candles : List (Bytes × List (Json F × Candle F)) → List (Candle F)
  all_candles [] = []
  all_candles ((name, l) ∷ rest) = candles_in l ++ all_candles rest

  -- No series has the name of the wrapper.
  abbrev pub IsUnwrapped : List (Bytes × List (Json F × Candle F)) → Type 0
  IsUnwrapped = All (λ s. s.0 ≢ codes "sds")

  module _ (float_zero : F) (to_int : F → ℤ) (from_int : ℤ → F) where
    -- The candle's timestamp is a number that the float holds exactly.
    abbrev pub IsExact : Candle F → Type 0
    IsExact c = to_int (from_int c.timestamp) ≡ c.timestamp

    -- The candles of every series have such timestamps.
    abbrev pub AllExact : List (Bytes × List (Json F × Candle F)) → Type 0
    AllExact = All (λ s. All (λ b. IsExact b.1) s.1)

    bar_candle-bar_of :
        (index : Json F) (c : Candle F)
        → IsExact c
        → bar_candle float_zero to_int (bar_of from_int index c) ≡ some c
    unfolding bar_candle as_object nested_array field_of as_array candle_of as_float beq
    bar_candle-bar_of index c exact = ap (λ t. some (record c { timestamp = t })) exact

    parse_bars-bars_of :
        (l : List (Json F × Candle F))
        → All (λ b. IsExact b.1) l
        → parse_bars float_zero to_int (bars_of from_int l) ≡ candles_in l
    unfolding parse_bars
    parse_bars-bars_of [] h = refl
    parse_bars-bars_of ((index, c) ∷ l) (exact, h) =
        rw (bar_candle-bar_of index c exact, parse_bars)
          (ap (λ cs. c ∷ cs) (parse_bars-bars_of l h))

    parse_fields-payload_of :
        (l : List (Bytes × List (Json F × Candle F)))
        → AllExact l
        → parse_fields float_zero to_int (payload_of from_int l) ≡ all_candles l
    unfolding parse_fields parse_series as_object nested_array field_of as_array beq
    parse_fields-payload_of [] h = refl
    parse_fields-payload_of ((name, s) ∷ l) (exact, h) =
        rw (parse_bars-bars_of s exact, parse_fields-payload_of l h)

    unwrapped :
        (l : List (Bytes × List (Json F × Candle F)))
        → IsUnwrapped l
        → nested_object (codes "sds") (payload_of from_int l) ≡ none
    unfolding nested_object field_of
    unwrapped [] h = refl
    unwrapped ((name, s) ∷ l) (ne, h) = ground (arith, beq_iff name (codes "sds"), unwrapped l h)

    -- parseCandles reads every candle of every series, in order, from a payload of well-formed series,
    -- and the same candles where the payload is wrapped in an object named sds. The timestamps of these
    -- candles are numbers that a float holds exactly, and no series is named sds.
    pub parse_candles-payload_of :
        (l : List (Bytes × List (Json F × Candle F)))
        → IsUnwrapped l
        → AllExact l
        → (parse_candles float_zero to_int (payload_of from_int l) ≡ all_candles l)
          × (parse_candles float_zero to_int
                (field (codes "sds") (json_object (payload_of from_int l)) no_fields)
              ≡ all_candles l)
    unfolding parse_candles
    parse_candles-payload_of l h exact = (
      rw (unwrapped l h, parse_candles) (parse_fields-payload_of l exact),
      unfold nested_object as_object field_of beq in parse_fields-payload_of l exact,
    )
