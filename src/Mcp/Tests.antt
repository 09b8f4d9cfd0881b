-- ===== src/Mcp/Tests.antt =====
-- mcp_test.go on the model, and the theorems at concrete inputs.
use tradingview_go.Common.{
  ◌≡◌, ◌≤◌, ◌⊎◌, inr, refl, Bool, true, ◌&&◌, some, none, List, [], ◌∷◌, ◌++◌, map, arith, ℕ, ℤ,
  pos, pos_part, length,
}
use tradingview_go.Text.{Bytes, codes, beq, trim_space, has_prefix}
use tradingview_go.Types.{ChartData, SymbolMatch, full}
use tradingview_go.Errors.{Error, code_text, ok, err, new_err, upstream_http}
use tradingview_go.Symbols.{member}
use tradingview_go.Config.{default_config}
use tradingview_go.Client.{Client, new_client, Env}
use tradingview_go.Search.{
  Response, RawSymbolMatch, answered, match_of, search_params, search_symbols, scan, is_full,
  match_key, strip_em, remove_all,
}
use tradingview_go.Search.Firsts.{firsts, limited}
use tradingview_go.Ta.Eval.{done}
use tradingview_go.Ta.{Params}
use tradingview_go.Ta.Tests.Numbers.{silent, thousandths, day}
use tradingview_go.Ta.Tests.Sorting.{insertion_sort, insertion_sort-Sorts}
use tradingview_go.Search.Tests.{raw, two}
use tradingview_go.Client.Goroutines.{Goroutines}
use tradingview_go.Mcp.{
  Reply, AnalyzeInput, AnalyzeOutput, IndicatorInput, IndicatorOutput, SearchSymbolsInput, analyze,
  indicator, search_symbols_tool, default_int,
}
use tradingview_go.Mcp.Tools.{tools, excluded}
use tradingview_go.Mcp.Indicator
use tradingview_go.Mcp.Indicator.{OnChart, Fails}
use tradingview_go.Mcp.Replies
use tradingview_go.Mcp.Replies.{options_of, Gives}
use tradingview_go.Mcp.Analysis
use tradingview_go.Mcp.Analysis.{succeeded}

all_in : List Bytes → List Bytes → Bool
all_in [] known = true
all_in (x ∷ xs) known = member x known && all_in xs known

-- TestEveryClientMethodIsWrappedOrExcluded
wrapped_or_excluded :
    all_in
      (codes "Fetch" ∷ codes "FetchMulti" ∷ codes "SearchSymbols" ∷ codes "Close" ∷ [])
      (map (λ t. t.method) tools ++ map (λ e. e.0) excluded)
    ≡ true
unfolding all_in tools excluded member beq
wrapped_or_excluded = refl

abbrev open_client : Client ℕ
open_client = new_client default_config

-- One fetch succeeds, and one fails.
abbrev goroutines : Goroutines ℕ
goroutines = record {
  results = λ resolutions bars.
      (codes "1D", ok day.1) ∷ (codes "7", err (new_err upstream_http (codes "dial") none)) ∷ [];
  start = 0;
  fetched = 1;
  ended = 1;
}

abbrev analysis : AnalyzeInput
analysis = record {
  symbol = codes "AAPL";
  resolutions = codes "1D" ∷ codes "7" ∷ [];
  bars = pos 0;
  indicators = [];
}

analyze-timeframes_example :
    (r : Reply AnalyzeOutput) × (out : AnalyzeOutput) × (analyze silent open_client insertion_sort
        analysis goroutines
      ≡ done r)
    × Gives out r
    × ((tf : Bytes)
        → member tf (map (λ t. t.timeframe) out.timeframes) ≡ member tf (day.1.resolution ∷ []))
unfolding new_client
analyze-timeframes_example =
    Analysis.analyze-timeframes silent refl open_client insertion_sort analysis goroutines
      insertion_sort-Sorts refl (λ h. ground arith)

abbrev no_params : Params ℕ
no_params = record {
  period = pos 0;
  fast = pos 0;
  slow = pos 0;
  signal = pos 0;
  std_dev = 0;
  multiplier = 0;
  periods = [];
  lookback = pos 0;
}

abbrev asked : IndicatorInput ℕ
asked = record {
  symbol = codes "AAPL";
  resolution = codes "1h";
  indicator = codes "rsi";
  bars = pos 0;
  params = no_params;
}

abbrev offline : Env ℕ
offline = record {
  at_get = 0;
  start = 0;
  fetched = 0;
  done = 0;
  at_put = 0;
  network = λ q. ok day.1.candles;
}

indicator-outcome_example :
    ((e : Error) × (Indicator.asked silent open_client (λ s. s) asked offline ≡ err e)
      × (r : Reply IndicatorOutput) × ((indicator silent open_client (λ s. s) asked offline).0
          ≡ done r)
      × Fails (code_text e.code) (codes "indicator" ++ (codes ": " ++ e.message)) r)
    ⊎ ((chart : ChartData ℕ) × (Indicator.asked silent open_client (λ s. s) asked offline
          ≡ ok chart)
        × OnChart silent open_client (λ s. s) asked offline chart)
indicator-outcome_example = Indicator.indicator-outcome silent open_client (λ s. s) asked offline

abbrev query : SearchSymbolsInput
query = record { query = codes "btc"; kind = []; exchange = []; limit = pos 2 }

abbrev server : List (Bytes × Bytes) → Response
server params = answered 200 [] (inr raw)

-- PageOf, of which only the matches are kept.
abbrev page_of : List SymbolMatch → Bytes → ℤ → List SymbolMatch
page_of found cursor limit = found

found : (search_symbols_tool page_of server query).value ≡ some two
unfolding search_symbols_tool search_symbols scan is_full match_of match_key full member strip_em
    remove_all has_prefix beq trim_space
found = refl

search_symbols_tool-few_example :
    (found : List SymbolMatch) × (raw' : List RawSymbolMatch) × (body : Bytes) × (two ≡ found)
    × (length found ≤ pos_part (default_int (pos 2) (pos 10)))
    × (found ≡ limited (default_int (pos 2) (pos 10)) (firsts (map match_of raw')))
    × (server (search_params (trim_space (codes "btc")) (options_of query))
        ≡ answered 200 body (inr raw'))
search_symbols_tool-few_example = Replies.search_symbols_tool-few page_of server query found
