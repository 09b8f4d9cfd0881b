-- ===== src/Payload.antt =====
-- protocol.go, parseCandles and asFloat, over decoded JSON. What encoding/json and the float64 type do
-- is a parameter; a decoded object is the list of its entries in the order in which `range` takes them.
pub mod Series
pub mod Tests
use tradingview_go.Common.{
  ℕ, zero, suc, Bool, Option, none, some, List, [], ◌∷◌, ◌++◌, ltb, if◌then◌else◌, ℤ,
}
use tradingview_go.Text.{Bytes, codes, beq}
use tradingview_go.Types.{Candle}

module _ (F : Type 0) where
  -- The values that json.Unmarshal writes into an `any`.
  mutual
    pub data Json : Type 0 where
      json_null : Json
      json_bool : Bool → Json
      json_number : F → Json
      json_string : Bytes → Json
      json_array : Items → Json
      json_object : Fields → Json

    pub data Items : Type 0 where
      no_items : Items
      item : Json → Items → Items

    pub data Fields : Type 0 where
      no_fields : Fields
      field : Bytes → Json → Fields → Fields

module _ {F : Type 0} where
  -- `m[k]`
  unfoldable pub field_of : Bytes → Fields F → Option (Json F)
  field_of k no_fields = none
  field_of k (field j v m) = if beq j k then some v else field_of k m

  -- `v.(map[string]any)`
  unfoldable pub as_object : Json F → Option (Fields F)
  as_object (json_object m) = some m
  as_object _ = none

  -- `v.([]any)`
  unfoldable pub as_array : Json F → Option (Items F)
  as_array (json_array l) = some l
  as_array _ = none

  unfoldable pub nested_object : Bytes → Fields F → Option (Fields F)
  nested_object k m = elim (field_of k m) [ none ↦ none | some v ↦ as_object v ]

  unfoldable pub nested_array : Bytes → Fields F → Option (Items F)
  nested_array k m = elim (field_of k m) [ none ↦ none | some v ↦ as_array v ]

  -- `float_zero` is 0, and `to_int` the conversion to int64.
  module _ (float_zero : F) (to_int : F → ℤ) where
    -- asFloat; json.Unmarshal gives a number as a float64, so its cases for int and int64 are not reached.
    unfoldable pub as_float : Json F → F
    as_float (json_number n) = n
    as_float _ = float_zero

    -- The six values of a bar; `none` where there are fewer.
    unfoldable pub candle_of : Items F → Option (Candle F)
    unfolding as_float
    candle_of (item t (item o (item h (item l (item c (item v rest)))))) = some (record {
      timestamp = to_int (as_float t);
      open_ = as_float o;
      high = as_float h;
      low = as_float l;
      close = as_float c;
      volume = as_float v;
    })
    candle_of _ = none

    -- The candle of one entry of a series, where it has one.
    unfoldable pub bar_candle : Json F → Option (Candle F)
    unfolding candle_of
    bar_candle bar = elim (as_object bar) [
      | none ↦ none
      | some m ↦ elim (nested_array (codes "v") m) [ none ↦ none | some values ↦ candle_of values ]
    ]

    unfoldable pub parse_bars : Items F → List (Candle F)
    parse_bars no_items = []
    parse_bars (item bar rest) = elim (bar_candle bar) [
      | none ↦ parse_bars rest
      | some candle ↦ candle ∷ parse_bars rest
    ]

    -- The candles of one value of the payload.
    unfoldable pub parse_series : Json F → List (Candle F)
    parse_series v = elim (as_object v) [
      | none ↦ []
      | some series ↦ elim (nested_array (codes "s") series) [
        | none ↦ []
        | some bars ↦ parse_bars bars
      ]
    ]

    unfoldable pub parse_fields : Fields F → List (Candle F)
    parse_fields no_fields = []
    parse_fields (field k v m) = parse_series v ++ parse_fields m

    unfoldable pub parse_candles : Fields F → List (Candle F)
    parse_candles payload = elim (nested_object (codes "sds") payload) [
      | some nested ↦ parse_fields nested
      | none ↦ parse_fields payload
    ]
