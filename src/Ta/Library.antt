-- ===== src/Ta/Library.antt =====
-- github.com/Bitvested/ta.go, as far as ta/ta.go calls it: a parameter. A slice of pairs or triples
-- that it returns is a list of tuples; what RecentHigh and Support return is of a type of its own. Ema
-- may panic: it is the one function that gets a number unchecked from the user, and it is taken to
-- return for a period from one to the length of the series. The others only get positive numbers.
use tradingview_go.Common.{ℕ, ◌<◌, ◌≤◌, ◌≡◌, List, ℤ, pos, length}
use tradingview_go.Text.{Bytes}
use tradingview_go.Ta.Eval.{Eval, done}

pub record Library (F Extreme Line : Type 0) : Type 0 where
  pub rsi : List F → ℤ → List F
  pub macd : List F → ℤ → ℤ → List F
  pub macd_signal : List F → ℤ → ℤ → ℤ → List F
  pub macd_bars : List F → ℤ → ℤ → ℤ → List F
  pub ema : List F → ℤ → Eval (List F)
  pub ema-done :
      (s : List F) (n : ℕ) → 0 < n → n ≤ length s → (l : List F) × (ema s (pos n) ≡ done l)
  pub bands : List F → ℤ → F → List (F × F × F)
  pub atr : List (F × F × F) → ℤ → List F
  pub supertrend : List (F × F × F) → ℤ → F → List (F × F)
  pub vwap : List (F × F) → ℤ → List F
  pub obv : List (F × F) → List F
  pub adx : List (F × F × F) → ℤ → List F
  pub stoch_rsi : List F → ℤ → ℤ → ℤ → ℤ → List (F × F)
  pub rsi_divergence : List F → ℤ → (List F → ℤ → List F) → List F
  pub recent_high : List F → ℤ → Extreme
  pub recent_low : List F → ℤ → Extreme
  pub support : List F → Extreme → Line
  pub resistance : List F → Extreme → Line
  pub line_calc : ℤ → Line → F

pub record Annotation : Type 0 where
  pub indicator : Bytes
  pub value : Bytes
  pub state : Bytes
