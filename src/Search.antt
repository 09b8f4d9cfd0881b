-- ===== src/Search.antt =====
-- search.go: SearchSymbols and stripEm. The HTTP client, net/url and the JSON decoder are parameters.
pub mod Firsts
pub mod Tests
use tradingview_go.Common.{
  ◌⊎◌, inl, inr, ℕ, zero, suc, ◌+◌, ◌-◌, Bool, true, false, ◌&&◌, Option, none, some, List, [], ◌∷◌,
  ◌++◌, ltb, leb, ◌==◌, not, if◌then◌else◌, ℤ, pos, ltb_ℤ, pos_part, length, take,
}
use tradingview_go.Text.{Bytes, codes, beq, has_prefix, trim_space, to_upper}
use tradingview_go.Text.Decimal.{format_nat}
use tradingview_go.Types.{SymbolMatch, SearchOptions, full}
use tradingview_go.Errors.{Result, ok, err, new_err, invalid_bars, upstream_http}
use tradingview_go.Symbols.{member}

-- strings.ReplaceAll of a text that is not empty by the empty one. The number counts the bytes that are
-- still to drop.
unfoldable pub remove_all : Bytes → ℕ → Bytes → Bytes
remove_all old k [] = []
remove_all old (suc k) (c ∷ s) = remove_all old k s
remove_all old zero (c ∷ s) = elim (has_prefix old (c ∷ s)) [
  | true ↦ remove_all old (length old - 1) s
  | false ↦ c ∷ remove_all old zero s
]

unfoldable pub strip_em : Bytes → Bytes
strip_em s = remove_all (codes "</em>") 0 (remove_all (codes "<em>") 0 s)

-- rawSymbolMatch, which has the fields of a SymbolMatch.
pub record RawSymbolMatch : Type 0 where
  pub symbol : Bytes
  pub description : Bytes
  pub kind : Bytes
  pub exchange : Bytes
  pub prefix : Bytes
  pub currency : Bytes
  pub source_id : Bytes
  pub type_specs : List Bytes

unfoldable pub match_of : RawSymbolMatch → SymbolMatch
match_of r = record {
  symbol = strip_em r.symbol;
  description = strip_em r.description;
  kind = r.kind;
  exchange = r.exchange;
  prefix = r.prefix;
  currency = r.currency;
  source_id = r.source_id;
  type_specs = r.type_specs;
}

unfoldable pub match_key : SymbolMatch → Bytes
match_key m = full m ++ (codes "|" ++ m.kind)

-- `opts.Limit > 0 && len(out) >= opts.Limit`
unfoldable pub is_full : ℤ → ℕ → Bool
is_full limit n = ltb_ℤ (pos 0) limit && leb (pos_part limit) n

-- The loop at the end of SearchSymbols.
unfoldable pub scan : ℤ → List RawSymbolMatch → List Bytes → List SymbolMatch → List SymbolMatch
scan limit [] seen out = out
scan limit (r ∷ rest) seen out =
    let m = match_of r in
    let key = match_key m in
    elim (member key seen) [
      | true ↦ scan limit rest seen out
      | false ↦ elim (is_full limit (length (out ++ m ∷ []))) [
        | true ↦ out ++ m ∷ []
        | false ↦ scan limit rest (key ∷ seen) (out ++ m ∷ [])
      ]
    ]

-- The parameters of the request, in the order in which they are set.
unfoldable pub search_params : Bytes → SearchOptions → List (Bytes × Bytes)
search_params query opts =
    (codes "text", query)
    ∷ (codes "hl", codes "1")
    ∷ (codes "lang", (if not (beq opts.lang []) then opts.lang else codes "en"))
    ∷ ((if not (beq opts.kind []) then (codes "type", opts.kind) ∷ [] else [])
        ++ (if not (beq opts.exchange [])
            then (codes "exchange", to_upper opts.exchange) ∷ []
            else []))

-- What the HTTP client gives: an error of the request before or in its run, an answer whose first bytes
-- are `body`, and what the decoder makes of it.
pub data Response : Type 0 where
  no_request unanswered : Bytes → Response
  answered : (status : ℕ) (body : Bytes) → Bytes ⊎ List RawSymbolMatch → Response

unfoldable pub search_symbols :
    (List (Bytes × Bytes) → Response) → Bytes → SearchOptions → Result (List SymbolMatch)
search_symbols http query opts =
    let query' = trim_space query in
    if beq query' []
    then err (new_err invalid_bars (codes "search query is empty") none)
    else elim (http (search_params query' opts)) [
      | no_request cause ↦ err (new_err upstream_http (codes "build request") (some cause))
      | unanswered cause ↦ err (new_err upstream_http (codes "search request") (some cause))
      | answered status body decoded ↦
          if not (status == 200)
          then err (
              new_err upstream_http
                (codes "search HTTP " ++ (format_nat status ++ (codes ": " ++ take 512 body))) none)
          else elim decoded [
            | inl cause ↦ err (new_err upstream_http (codes "decode search response") (some cause))
            | inr raw ↦ ok (scan opts.limit raw [] [])
          ]
    ]
