-- ===== src/Ta/Eval.antt =====
-- A computation that may panic. The last constructor stands for fuel that has run out.
use tradingview_go.Common.{Option, none, some}

pub data Eval (A : Type 0) : Type 0 where
  done : A → Eval A
  panics no_fuel : Eval A

infixl 5 ◌>>=◌
abbrev pub ◌>>=◌ : {A B : Type 0} → Eval A → (A → Eval B) → Eval B
done a >>= f = f a
panics >>= f = panics
no_fuel >>= f = no_fuel

-- An access that is out of range where there is nothing.
abbrev pub or_panic : {A : Type 0} → Option A → Eval A
or_panic none = panics
or_panic (some a) = done a
