-- ===== src/Symbols/Tests.antt =====
-- The tables of protocol_test.go, and the theorems at concrete inputs.
use tradingview_go.Common.{◌≡◌, refl, true, none, some}
use tradingview_go.Text.{codes, beq, to_upper, trim_space}
use tradingview_go.Symbols.{lookup, member, to_wire, normalize_symbol, normalize_resolution}
use tradingview_go.Symbols.Laws
use tradingview_go.Symbols.Laws.{wire_forms}

-- TestNormalizeResolution
resolutions :
    (normalize_resolution (codes "15m") ≡ some (codes "15"))
    × (normalize_resolution (codes " 1H ") ≡ some (codes "60"))
    × (normalize_resolution (codes "daily") ≡ some (codes "D"))
    × (normalize_resolution (codes "") ≡ none)
    × (normalize_resolution (codes "banana") ≡ none)
unfolding normalize_resolution to_wire lookup member beq to_upper trim_space
resolutions = (refl, refl, refl, refl, refl)

-- The month key of ValidResolutions is read as one minute.
one_month : normalize_resolution (codes "1M") ≡ some (codes "1")
unfolding normalize_resolution to_wire lookup member beq to_upper trim_space
one_month = refl

-- TestNormalizeSymbol
symbol : normalize_symbol (codes "  binance:btcusdt  ") ≡ codes "BINANCE:BTCUSDT"
unfolding normalize_symbol to_upper trim_space
symbol = refl

normalize_resolution-wire_example :
    (member (codes "1") wire_forms ≡ true) × (normalize_resolution (codes "1") ≡ some (codes "1"))
normalize_resolution-wire_example = Laws.normalize_resolution-wire (codes "1M") one_month
