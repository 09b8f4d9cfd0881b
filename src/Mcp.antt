-- ===== src/Mcp.antt =====
-- mcp: the handlers of the tools over the client, and the list of the tools. The package mcptool is a
-- parameter: its PageOf is an argument, and its Error is what `tool_error` holds.
pub mod Replies
pub mod Indicator
pub mod Analysis
pub mod Tools
pub mod Tests
use tradingview_go.Common.{
  ℕ, Bool, true, false, Option, none, some, List, [], ◌∷◌, ◌++◌, if◌then◌else◌, ℤ, pos, leb_ℤ,
}
use tradingview_go.Text.{Bytes, codes}
use tradingview_go.Types.{ChartData, MultiChartData, SymbolMatch, SearchOptions}
use tradingview_go.Errors.{Error, Result, ok, err, code_text}
use tradingview_go.Client.{Client, Env, fetch, fetch_multi}
use tradingview_go.Client.Goroutines.{Goroutines, multi_of}
use tradingview_go.Search.{Response, search_symbols}
use tradingview_go.Ta.{Params, indicator_names}
use tradingview_go.Ta.Float.{Float, num}
use tradingview_go.Ta.Eval.{Eval, done, panics, no_fuel, ◌>>=◌}
use tradingview_go.Ta.Library.{Library, Annotation}
use tradingview_go.Ta.Pipeline.{
  TimeframeAnnotations, enrich_multi, compute, Computed, computed, computed_error,
}

-- helpers.go: an error whose chain holds one of the SDK, or another one with its text.
pub data GoError : Type 0 where
  sdk : Error → GoError
  other : Bytes → GoError

-- An error that a tool returns: one with a code for the host, or another one.
pub data ToolError : Type 0 where
  tool_error : (code message : Bytes) → ToolError
  plain_error : Bytes → ToolError

-- `none` is the nil error.
unfoldable pub wrap_err : Option GoError → Bytes → Option ToolError
unfolding code_text
wrap_err none op = none
wrap_err (some (sdk e)) op = some (tool_error (code_text e.code) (op ++ (codes ": " ++ e.message)))
wrap_err (some (other text)) op = some (plain_error text)

unfoldable pub default_int : ℤ → ℤ → ℤ
default_int v fallback = if leb_ℤ v (pos 0) then fallback else v

-- What `(any, error)` holds: `none` is nil.
pub record Reply (A : Type 0) : Type 0 where
  pub value : Option A
  pub error : Option ToolError

abbrev gives : {A : Type 0} → A → Reply A
gives a = record { value = some a; error = none }

abbrev fails : {A : Type 0} → Option ToolError → Reply A
fails e = record { value = none; error = e }

-- fetch.go and search.go: the inputs of the tools.
pub record FetchCandlesInput : Type 0 where
  pub symbol : Bytes
  pub resolution : Bytes
  pub bars : ℤ

pub record FetchMultiInput : Type 0 where
  pub symbol : Bytes
  pub resolutions : List Bytes
  pub bars : ℤ

pub record SearchSymbolsInput : Type 0 where
  pub query : Bytes
  pub kind : Bytes
  pub exchange : Bytes
  pub limit : ℤ

-- analyze.go
pub record AnalyzeInput : Type 0 where
  pub symbol : Bytes
  pub resolutions : List Bytes
  pub bars : ℤ
  pub indicators : List Bytes

-- IndicatorInput, whose last eight fields are a `Params`.
pub record IndicatorInput (F : Type 0) : Type 0 where
  pub symbol : Bytes
  pub resolution : Bytes
  pub indicator : Bytes
  pub bars : ℤ
  pub params : Params F

pub record AnalyzeOutput : Type 0 where
  pub symbol : Bytes
  pub timeframes : List TimeframeAnnotations

pub record IndicatorOutput : Type 0 where
  pub symbol : Bytes
  pub resolution : Bytes
  pub indicator : Bytes
  pub annotations : List Annotation

module _ {F : Type 0} (c : Client F) where
  unfoldable pub fetch_candles : FetchCandlesInput → Env F → Reply (ChartData F) × Client F
  unfolding wrap_err default_int
  fetch_candles input env =
      let (res, c') =
        fetch c input.symbol input.resolution (default_int input.bars (pos 300)) env in
      (
        elim res [
          | err e ↦ fails (wrap_err (some (sdk e)) (codes "fetch_candles"))
          | ok chart ↦ gives chart
        ],
        c',
      )

  unfoldable pub fetch_multi_tool : FetchMultiInput → Goroutines F → Reply (MultiChartData F)
  unfolding wrap_err default_int multi_of
  fetch_multi_tool input g =
      elim (multi_of c g input.symbol input.resolutions (default_int input.bars (pos 200))) [
        | err e ↦ fails (wrap_err (some (sdk e)) (codes "fetch_multi"))
        | ok multi ↦ gives multi
      ]

-- `page_of` is mcptool.PageOf.
unfoldable pub search_symbols_tool :
    {Page : Type 0}
    → (List SymbolMatch → Bytes → ℤ → Page)
    → (List (Bytes × Bytes) → Response)
    → SearchSymbolsInput
    → Reply Page
unfolding wrap_err default_int
search_symbols_tool page_of http input =
    let limit = default_int input.limit (pos 10) in
    let opts : SearchOptions = record {
      kind = input.kind;
      exchange = input.exchange;
      lang = [];
      limit = limit;
    } in
    elim (search_symbols http input.query opts) [
      | err e ↦ fails (wrap_err (some (sdk e)) (codes "search_symbols"))
      | ok matches ↦ gives (page_of matches [] limit)
    ]

-- What indicator makes of Compute's result; `quote` is fmt's verb %q.
unfoldable pub indicator_reply :
    {F : Type 0} ⦃f : Float F⦄
    → (Bytes → Bytes)
    → IndicatorInput F
    → Computed
    → Reply IndicatorOutput
unfolding computed_error indicator_names
indicator_reply quote input (computed annotations) = gives (record {
  symbol = input.symbol;
  resolution = input.resolution;
  indicator = input.indicator;
  annotations = annotations;
})
indicator_reply {F} quote input failed =
    elim (computed_error quote (indicator_names {F = F} (num 2) (num 3)) failed) [
      | none ↦ fails none
      | some message ↦ fails (some (tool_error (codes "invalid_input") message))
    ]

module _ {F Extreme Line : Type 0} ⦃f : Float F⦄ (lib : Library F Extreme Line) (c : Client F) where
  -- `sort` is sort.Slice.
  unfoldable pub analyze :
      ((TimeframeAnnotations → TimeframeAnnotations → Bool)
        → List TimeframeAnnotations
        → List TimeframeAnnotations)
      → AnalyzeInput
      → Goroutines F
      → Eval (Reply AnalyzeOutput)
  unfolding wrap_err default_int multi_of
  analyze sort input g =
      elim (multi_of c g input.symbol input.resolutions (default_int input.bars (pos 300))) [
        | err e ↦ done (fails (wrap_err (some (sdk e)) (codes "analyze")))
        | ok multi ↦ do
          timeframes ← enrich_multi lib sort multi input.indicators
          done (gives (record { symbol = input.symbol; timeframes = timeframes }))
      ]

  unfoldable pub indicator :
      (Bytes → Bytes) → IndicatorInput F → Env F → Eval (Reply IndicatorOutput) × Client F
  unfolding wrap_err default_int indicator_reply
  indicator quote input env =
      let (res, c') =
        fetch c input.symbol input.resolution (default_int input.bars (pos 300)) env in
      (
        elim res [
          | err e ↦ done (fails (wrap_err (some (sdk e)) (codes "indicator")))
          | ok chart ↦ do
            result ← compute lib input.indicator chart.candles input.resolution input.params
            done (indicator_reply quote input result)
        ],
        c',
      )
