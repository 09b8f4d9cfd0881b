-- ===== src/Types.antt =====
-- types.go: the values that the package returns. A price is of a type `F`, which stands for float64
-- and is a parameter throughout; times are nanoseconds since some start.
use tradingview_go.Common.{ℕ, Bool, ◌++◌, List, [], ℤ, if◌then◌else◌, not}
use tradingview_go.Text.{Bytes, codes, beq}

pub record Candle (F : Type 0) : Type 0 where
  pub timestamp : ℤ
  pub open_ : F
  pub high : F
  pub low : F
  pub close : F
  pub volume : F

pub record ChartData (F : Type 0) : Type 0 where
  pub symbol : Bytes
  pub resolution : Bytes
  pub candles : List (Candle F)
  pub fetched_at : ℕ
  pub cached : Bool
  pub latency_ms : ℕ

-- The two maps are lists of their entries.
pub record MultiChartData (F : Type 0) : Type 0 where
  pub symbol : Bytes
  pub slabs : List (Bytes × ChartData F)
  pub errors : List (Bytes × Bytes)
  pub fetched_at : ℕ
  pub latency_ms : ℕ

pub record SymbolMatch : Type 0 where
  pub symbol : Bytes
  pub description : Bytes
  pub kind : Bytes
  pub exchange : Bytes
  pub prefix : Bytes
  pub currency : Bytes
  pub source_id : Bytes
  pub type_specs : List Bytes

unfoldable pub full : SymbolMatch → Bytes
full m = if not (beq m.prefix []) then m.prefix ++ (codes ":" ++ m.symbol) else m.symbol

pub record SearchOptions : Type 0 where
  pub kind : Bytes
  pub exchange : Bytes
  pub lang : Bytes
  pub limit : ℤ
