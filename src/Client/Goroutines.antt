-- ===== src/Client/Goroutines.antt =====
-- A FetchMulti with its goroutines, which are asked for the same number of bars.
use tradingview_go.Common.{ℕ, List, ℤ}
use tradingview_go.Text.{Bytes}
use tradingview_go.Types.{ChartData, MultiChartData}
use tradingview_go.Errors.{Result}
use tradingview_go.Client.{Client, fetch_multi}

-- What the goroutines of a FetchMulti over some resolutions and bars give in the order of their ends,
-- and its clock readings.
pub record Goroutines (F : Type 0) : Type 0 where
  pub results : List Bytes → ℤ → List (Bytes × Result (ChartData F))
  pub start : ℕ
  pub fetched : ℕ
  pub ended : ℕ

unfoldable pub multi_of :
    {F : Type 0} → Client F → Goroutines F → Bytes → List Bytes → ℤ → Result (MultiChartData F)
multi_of c g symbol resolutions bars =
    fetch_multi c symbol resolutions (g.results resolutions bars) g.start g.fetched g.ended
