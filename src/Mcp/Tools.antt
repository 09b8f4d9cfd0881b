-- ===== src/Mcp/Tools.antt =====
-- The tools that the provider lists, and the client's methods that no tool wraps.
use tradingview_go.Common.{List, [], ◌∷◌, ◌++◌}
use tradingview_go.Text.{Bytes, codes}

-- What mcptool.Define is given besides the handler.
pub record Tool : Type 0 where
  pub name : Bytes
  pub description : Bytes
  pub method : Bytes

-- Provider.Platform
unfoldable pub platform : Bytes
platform = codes "tradingview"

unfoldable pub fetch_tools : List Tool
fetch_tools =
    record {
      name = codes "tradingview_fetch_candles";
      description =
          codes
            "Fetch OHLCV candles for one symbol/resolution. The last bar is the currently-forming (unclosed) candle.";
      method = codes "Fetch";
    }
    ∷ record {
      name = codes "tradingview_fetch_multi";
      description =
          codes
            "Fetch OHLCV for one symbol across several resolutions in parallel. Prefer over repeated fetch_candles calls.";
      method = codes "FetchMulti";
    }
    ∷ []

unfoldable pub search_tools : List Tool
search_tools =
    record {
      name = codes "tradingview_search_symbols";
      description =
          codes
            "Autocomplete-style search (max ~50 hits). Use returned prefix:symbol (e.g. BINANCE:BTCUSDT) with fetch_candles.";
      method = codes "SearchSymbols";
    }
    ∷ []

unfoldable pub analyze_tools : List Tool
analyze_tools =
    record {
      name = codes "tradingview_analyze";
      description =
          codes
            "Multi-timeframe technical analysis: fetches candles and returns RSI/MACD/EMA/etc readings per timeframe.";
      method = [];
    }
    ∷ record {
      name = codes "tradingview_indicator";
      description =
          codes
            "Compute one indicator with custom parameters on a single timeframe and return its reading + state.";
      method = [];
    }
    ∷ []

-- Provider.Tools
unfoldable pub tools : List Tool
unfolding fetch_tools search_tools analyze_tools
tools = fetch_tools ++ (search_tools ++ analyze_tools)

-- Excluded, as the list of its entries.
unfoldable pub excluded : List (Bytes × Bytes)
excluded = (codes "Close", codes "lifecycle owned by the host process; not an agent action") ∷ []
