-- ===== src/Ta/States/Averages.antt =====
-- The state of the moving averages where one of them is missing.
use tradingview_go.Common.{◌≡◌, refl, true, none, some, List, ℤ, pos}
use tradingview_go.Text.{codes}
use tradingview_go.Ta.Float.{Float}
use tradingview_go.Ta.States.{value_at, value_or_zero, has_value, ema_state}

-- Without an EMA of 50 bars, a price above the EMA of 200 bars and a positive EMA of 20 bars are
-- reported as `20>50`: the missing average counts as 0.
pub ema_state-no50 :
    {F : Type 0} ⦃f : Float F⦄ (price ema20 ema200 : F) (vals : List (ℤ × F))
    → value_at (pos 20) vals ≡ some ema20
    → value_at (pos 50) vals ≡ none
    → value_at (pos 200) vals ≡ some ema200
    → f.lt ema200 price ≡ true
    → f.lt (f.lit 0 0) ema20 ≡ true
    → ema_state price vals ≡ codes "Strong bullish (price above 200, 20>50)"
unfolding ema_state value_or_zero has_value
ema_state-no50 price ema20 ema200 vals v20 v50 v200 above positive =
    rw (v20, v50, v200, ema_state) (rw (above, positive) refl)
