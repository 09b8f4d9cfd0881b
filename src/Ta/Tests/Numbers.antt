-- ===== src/Ta/Tests/Numbers.antt =====
-- The theorems on ta/ta.go with thousandths for floats, and a library whose series are empty.
use tradingview_go.Common.{
  ℕ, ◌+◌, ◌-◌, ◌*◌, ◌/◌, ◌^◌, ◌≡◌, refl, ◌∙◌, sym, ap, false, some, List, [], ◌∷◌, arith, ltb, leb,
  ◌==◌, pos, pos_part, map,
}
use mathlib.Core.List.{Perm, Mem, mem-cons, not-mem-nil}
use mathlib.Core.Logic.{◌∨₁◌, ∥∥₁_prop}
use native.Mathlib.Decide.{ℕ_discrete}
use mathlib.Core.List.Perm
use mathlib.Core.Logic.Or
use tradingview_go.Text.{Bytes, codes, beq, trim_space}
use tradingview_go.Text.Decimal.{format_nat}
use tradingview_go.Types.{Candle, ChartData, MultiChartData}
use tradingview_go.Symbols.{lookup, member}
use tradingview_go.Ta.{to_lower, to_lower_byte, default_pipeline, enricher_name, indicator_names}
use tradingview_go.Ta.Float.{Float, IsOrdered}
use tradingview_go.Ta.Library.{Library}
use tradingview_go.Ta.Eval.{done}
use tradingview_go.Ta.Candles.{find_swing, swing_loop}
use tradingview_go.Ta.Candles.Swing
use tradingview_go.Ta.Candles.Swing.{Between, HasHigh, HasLow}
use tradingview_go.Ta.Profile.{Area, value_area}
use tradingview_go.Ta.Profile.Bounds
use tradingview_go.Ta.Profile.Bounds.{Within}
use tradingview_go.Ta.Pipeline.{TimeframeAnnotations, tf_rank, tf_order, enrich_multi}
use tradingview_go.Ta.Pipeline.Safe.{Returns}
use tradingview_go.Ta.Pipeline.Total
use tradingview_go.Ta.Pipeline.Filter
use tradingview_go.Ta.Pipeline.Order
use tradingview_go.Ta.Pipeline.Order.{IsByLength, IsRanked}
use tradingview_go.Ta.Tests.Sorting.{insertion_sort, insertion_sort-Sorts}

instance abbrev pub thousandths : Float ℕ
thousandths = record {
  lit = λ n k. n * 1000 / 10 ^ k;
  neg = λ x. 0;
  add = λ x y. x + y;
  sub = λ x y. x - y;
  mul = λ x y. x * y / 1000;
  div = λ x y. x * 1000 / y;
  lt = ltb;
  le = leb;
  eq = λ x y. x == y;
  abs = λ x. x;
  of_int = λ n. pos_part n * 1000;
  to_int = λ x. pos (x / 1000);
  format = λ k x. format_nat x;
}

ordered : IsOrdered thousandths
ordered = record {
  le_refl = λ x. ground arith;
  le_trans = λ x y z p q. ground arith;
  not_lt = λ x y h. ground arith;
  le_of_lt = λ x y h. ground arith;
}

abbrev pub silent : Library ℕ ℕ ℕ
silent = record {
  rsi = λ c n. [];
  macd = λ c n m. [];
  macd_signal = λ c n m k. [];
  macd_bars = λ c n m k. [];
  ema = λ c n. done [];
  ema-done = λ s n p h. ([], refl);
  bands = λ c n d. [];
  atr = λ c n. [];
  supertrend = λ c n m. [];
  vwap = λ c n. [];
  obv = λ c. [];
  adx = λ c n. [];
  stoch_rsi = λ c n m k d. [];
  rsi_divergence = λ c n r. [];
  recent_high = λ c n. 0;
  recent_low = λ c n. 0;
  support = λ c x. x;
  resistance = λ c x. x;
  line_calc = λ n x. x;
}

abbrev candle : ℕ → ℕ → Candle ℕ
candle high low = record {
  timestamp = pos 5;
  open_ = low;
  high = high;
  low = low;
  close = high;
  volume = 6000;
}

abbrev window : List (Candle ℕ)
window = candle 4000 1000 ∷ candle 7000 2000 ∷ candle 5000 3000 ∷ []

swing : find_swing window ≡ some (7000, 1000)
unfolding find_swing swing_loop
swing = refl

find_swing-Between_example : Between 7000 1000 window × HasHigh 7000 window × HasLow 1000 window
find_swing-Between_example = Swing.find_swing-Between window ordered swing

value_area-Within_example :
    (area : Area ℕ) × (value_area 3 window 1000 7000 ≡ done area) × Within 3 1000 7000 area
value_area-Within_example = Bounds.value_area-Within 3 window 1000 7000 refl (omega arith)

abbrev slab : Bytes → ChartData ℕ
slab tf = record {
  symbol = codes "X";
  resolution = tf;
  candles = window;
  fetched_at = 0;
  cached = false;
  latency_ms = 0;
}

abbrev both : List (Bytes × ChartData ℕ) → MultiChartData ℕ
both slabs = record {
  symbol = codes "X";
  slabs = slabs;
  errors = [];
  fetched_at = 0;
  latency_ms = 0;
}

abbrev pub day : Bytes × ChartData ℕ
day = (codes "D", slab (codes "D"))

abbrev hour : Bytes × ChartData ℕ
hour = (codes "60", slab (codes "60"))

enrich_multi-Returns_example :
    Returns (enrich_multi silent insertion_sort (both (day ∷ hour ∷ [])) [])
enrich_multi-Returns_example =
    Total.enrich_multi-Returns silent refl insertion_sort (both (day ∷ hour ∷ [])) []

absent :
    Filter.Apart
      (map (λ n. to_lower (trim_space n)) (codes "cci" ∷ []))
      (indicator_names {F = ℕ} 2000 3000)
unfolding indicator_names default_pipeline enricher_name member beq to_lower_byte trim_space
absent = (
  refl,
  (
    refl,
    (
      refl,
      (
        refl,
        (refl, (refl, (refl, (refl, (refl, (refl, (refl, (refl, (refl, (refl, (refl, tt))))))))))),
      ),
    ),
  ),
)

enrich_multi-unknown_example :
    enrich_multi silent insertion_sort (both (day ∷ [])) (codes "cci" ∷ [])
    ≡ enrich_multi silent insertion_sort (both (day ∷ [])) []
enrich_multi-unknown_example =
    Filter.enrich_multi-unknown silent insertion_sort (both (day ∷ [])) (codes "cci") [] absent

Candle-discrete : Discrete (Candle ℕ)
Candle-discrete = hlevel ℕ_discrete

slab-set : IsSet (Bytes × ChartData ℕ)
slab-set = hlevel (Candle-discrete, ℕ_discrete)

day_or_hour : {s : Bytes × ChartData ℕ} → Mem s (day ∷ hour ∷ []) → (s ≡ day) ∨₁ (s ≡ hour)
day_or_hour m =
    Or.elim ∥∥₁_prop (mem-cons.0 m) Or.inl
      λ later. Or.elim ∥∥₁_prop (mem-cons.0 later) Or.inr λ never. absurd (not-mem-nil never)

ranked : IsRanked silent refl (day ∷ hour ∷ [])
unfolding tf_rank tf_order lookup beq
ranked s t ms mt e =
    Or.elim (slab-set s t) (day_or_hour ms)
      (λ is.
        Or.elim (slab-set s t) (day_or_hour mt) (λ is'. is ∙ sym is')
          λ is'. absurd (apart (ap (λ s. tf_rank s.0) (sym is) ∙ e ∙ ap (λ s. tf_rank s.0) is')))
      (λ is.
        Or.elim (slab-set s t) (day_or_hour mt)
          (λ is'.
            absurd (apart (sym (ap (λ s. tf_rank s.0) (sym is) ∙ e ∙ ap (λ s. tf_rank s.0) is'))))
          λ is'. is ∙ sym is')
  where
    apart : tf_rank (codes "D") ≡ tf_rank (codes "60") → ⊥
    apart h = omega arith

enrich_multi-perm_example :
    (groups : List TimeframeAnnotations) × (enrich_multi silent insertion_sort
        (both (day ∷ hour ∷ []))
        []
      ≡ done groups)
    × (enrich_multi silent insertion_sort (both (hour ∷ day ∷ [])) [] ≡ done groups)
    × IsByLength groups
    × Perm (map (λ g. g.timeframe) groups) (codes "D" ∷ codes "60" ∷ [])
enrich_multi-perm_example =
    Order.enrich_multi-perm silent refl insertion_sort (both (day ∷ hour ∷ []))
      (both (hour ∷ day ∷ [])) [] insertion_sort-Sorts (Perm.swap _ _ _) ranked
