-- ===== src/Mcp/Replies.antt =====
-- What the tools reply.
use tradingview_go.Common.{
  ◌≤◌, ◌≡◌, refl, inl, inr, true, none, some, List, [], arith, ℤ, pos, pos_part, ltb_ℤ, length,
  length-take-le, map,
}
use tradingview_go.Text.{Bytes, trim_space}
use tradingview_go.Types.{SymbolMatch, SearchOptions}
use tradingview_go.Errors.{Result-cases}
use tradingview_go.Search.{
  Response, RawSymbolMatch, answered, match_of, search_symbols, search_params,
}
use tradingview_go.Search.Firsts.{search_symbols-ok, firsts, limited}
use tradingview_go.Mcp.{Reply, default_int, SearchSymbolsInput, search_symbols_tool}

default_int-positive : (v d : ℤ) → ltb_ℤ (pos 0) d ≡ true → ltb_ℤ (pos 0) (default_int v d) ≡ true
unfolding default_int
default_int-positive v d h = ground arith

length-limited-le :
    (limit : ℤ) (l : List SymbolMatch)
    → ltb_ℤ (pos 0) limit ≡ true
    → length (limited limit l) ≤ pos_part limit
length-limited-le limit l h = rw h (length-take-le (pos_part limit) l)

-- The options that the search tool passes on.
abbrev pub options_of : SearchSymbolsInput → SearchOptions
options_of input = record {
  kind = input.kind;
  exchange = input.exchange;
  lang = [];
  limit = default_int input.limit (pos 10);
}

module _ {Page : Type 0} (page_of : List SymbolMatch → Bytes → ℤ → Page)
    (http : List (Bytes × Bytes) → Response) (input : SearchSymbolsInput) where
  -- A page that the search tool gives is one of at most as many matches as its limit says, which is 10
  -- where the input has no positive one: the first of each key in the server's answer.
  pub search_symbols_tool-few :
      {page : Page}
      → (search_symbols_tool page_of http input).value ≡ some page
      → let limit = default_int input.limit (pos 10) in
        (found : List SymbolMatch) × (raw : List RawSymbolMatch) × (body : Bytes) × (page
          ≡ page_of found [] limit)
        × (length found ≤ pos_part limit)
        × (found ≡ limited limit (firsts (map match_of raw)))
        × (http (search_params (trim_space input.query) (options_of input))
            ≡ answered 200 body (inr raw))
  unfolding search_symbols_tool
  search_symbols_tool-few {page} e =
      let limit = default_int input.limit (pos 10) in
      elim (Result-cases (search_symbols http input.query (options_of input))) [
        | inr (x, failed) ↦ absurd (ground arith)
        | inl (found, r) ↦
            let (_, body, raw, answer, is) =
              search_symbols-ok http input.query (options_of input) {found = found} r in
            let few =
              length-limited-le limit (firsts (map match_of raw))
                (default_int-positive input.limit (pos 10) refl) in
            (found, raw, body, ground arith, rw is few, is, answer)
      ]

-- A value and no error.
abbrev pub Gives : {A : Type 0} → A → Reply A → Type 0
Gives a r = (r.value ≡ some a) × (r.error ≡ none)
