-- ===== src/Payload/Tests.antt =====
-- A payload of two series, and the theorem at it. The float64s are modelled by integers.
use tradingview_go.Common.{
  ◌≡◌, refl, arith, List, [], ◌∷◌, ℤ, pos, negsuc, ltb, if◌then◌else◌, ◌^◌, ◌/◌, ◌*◌,
}
use tradingview_go.Text.{Bytes, codes}
use tradingview_go.Types.{Candle}
use tradingview_go.Payload.{Json, json_null, json_object, no_fields, field, parse_candles}
use tradingview_go.Payload.Series
use tradingview_go.Payload.Series.{payload_of, all_candles}

abbrev candle : ℤ → Candle ℤ
candle t = record {
  timestamp = t;
  open_ = pos 2;
  high = pos 4;
  low = pos 1;
  close = pos 3;
  volume = pos 9;
}

abbrev series : List (Bytes × List (Json ℤ × Candle ℤ))
series =
    (codes "sds_1", (json_null, candle (pos 5)) ∷ (json_null, candle (pos 6)) ∷ [])
    ∷ (codes "st1", [])
    ∷ []

-- A float holds the integers up to 2^53 and only the even ones above, as far as these go.
abbrev rounded : ℤ → ℤ
rounded (pos n) = if ltb n (2 ^ 53) then pos n else pos (n / 2 * 2)
rounded (negsuc n) = negsuc n

parse_candles-payload_of_example :
    (parse_candles (pos 0) (λ x. x) (payload_of rounded series) ≡ all_candles series)
    × (parse_candles
          (pos 0)
          (λ x. x)
          (field (codes "sds") (json_object (payload_of rounded series)) no_fields)
        ≡ all_candles series)
parse_candles-payload_of_example =
    Series.parse_candles-payload_of (pos 0) (λ x. x) rounded series
      ((λ h. ground arith), ((λ h. ground arith), tt)) ((refl, (refl, tt)), (tt, tt))
