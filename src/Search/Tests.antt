-- ===== src/Search/Tests.antt =====
-- search_test.go on the model, and the theorems at a search with a duplicate and a limit.
use tradingview_go.Common.{◌≡◌, ◌≢◌, refl, List, [], ◌∷◌, map, inr, pos}
use tradingview_go.Text.{Bytes, codes, beq, has_prefix, trim_space}
use tradingview_go.Types.{SymbolMatch, SearchOptions, full}
use tradingview_go.Errors.{ok}
use tradingview_go.Symbols.{member}
use tradingview_go.Search.{
  RawSymbolMatch, answered, remove_all, strip_em, match_of, match_key, is_full, scan,
  search_symbols,
}
use tradingview_go.Search.Firsts
use tradingview_go.Search.Firsts.{firsts, limited}

-- TestStripEm
stripped : strip_em (codes "<em>BTC</em>USD") ≡ codes "BTCUSD"
unfolding strip_em remove_all has_prefix
stripped = refl

abbrev raw_match : Bytes → RawSymbolMatch
raw_match symbol = record {
  symbol = symbol;
  description = [];
  kind = codes "crypto";
  exchange = [];
  prefix = codes "BINANCE";
  currency = [];
  source_id = [];
  type_specs = [];
}

-- The first two are the same symbol.
abbrev pub raw : List RawSymbolMatch
raw =
    raw_match (codes "<em>BTC</em>USD")
    ∷ raw_match (codes "BTCUSD")
    ∷ raw_match (codes "BTCEUR")
    ∷ raw_match (codes "BTCGBP")
    ∷ []

abbrev pub two : List SymbolMatch
two = match_of (raw_match (codes "BTCUSD")) ∷ match_of (raw_match (codes "BTCEUR")) ∷ []

abbrev opts : SearchOptions
opts = record { kind = []; exchange = []; lang = []; limit = pos 2 }

searched : search_symbols (λ q. answered 200 [] (inr raw)) (codes " btc ") opts ≡ ok two
unfolding search_symbols scan is_full match_of match_key full member strip_em remove_all has_prefix
    beq trim_space
searched = refl

search_symbols-ok_example :
    (trim_space (codes " btc ") ≢ [])
    × (body : Bytes) × (found : List RawSymbolMatch) × (answered 200 [] (inr raw)
        ≡ answered 200 body (inr found))
    × (two ≡ limited (pos 2) (firsts (map match_of found)))
search_symbols-ok_example =
    Firsts.search_symbols-ok (λ q. answered 200 [] (inr raw)) (codes " btc ") opts searched
