-- ===== src/Mcp/Analysis.antt =====
-- Which timeframes tradingview_analyze reports on.
use mathlib.Core.List.{Perm, Permᴰ}
use mathlib.Core.Path.{ap₂}
use mathlib.Core.Logic.{∥∥₁_elim}
use mathlib.Core.Bool.{Bool-set}
use tradingview_go.Common.{
  length, ◌==◌, ◌≡◌, ◌≢◌, refl, ◌∙◌, Bool, true, false, ◌||◌, List, [], ◌∷◌, arith, ℤ, pos, map,
  ◌-◌,
}
use tradingview_go.Text.{Bytes, beq, beq_iff}
use tradingview_go.Types.{ChartData, MultiChartData}
use tradingview_go.Errors.{Result, ok, err}
use tradingview_go.Symbols.{member, normalize_symbol}
use tradingview_go.Client.{Client, fetch_multi, insert, collect, collect_all, milliseconds}
use tradingview_go.Ta.Float.{Float}
use tradingview_go.Ta.Eval.{done}
use tradingview_go.Ta.Library.{Library}
use tradingview_go.Ta.Pipeline.{TimeframeAnnotations}
use tradingview_go.Ta.Pipeline.Order.{Sorts, enrich_multi-timeframes}
use tradingview_go.Client.Goroutines.{Goroutines, multi_of}
use tradingview_go.Mcp.{Reply, default_int, AnalyzeInput, AnalyzeOutput, analyze}
use tradingview_go.Mcp.Replies.{Gives}

member-insert :
    {V : Type 0} (k j : Bytes) (v : V) (m : List (Bytes × V))
    → member k (map (λ e. e.0) (insert j v m)) ≡ (beq j k || member k (map (λ e. e.0) m))
unfolding member insert
member-insert k j v [] = refl
member-insert k j v ((i, w) ∷ m) =
    ground (arith, beq_iff i j, beq_iff i k, beq_iff j k, member-insert k j v m)

member-permᴰ : (k : Bytes) {xs ys : List Bytes} → Permᴰ xs ys → member k xs ≡ member k ys
unfolding member
member-permᴰ k Permᴰ.nil = refl
member-permᴰ k (Permᴰ.cons e p) = ap₂ (λ x b. beq x k || b) e (member-permᴰ k p)
member-permᴰ k (Permᴰ.swap {a = x} {b = y} e e') = rw (← e, ← e') (ground arith)
member-permᴰ k (Permᴰ.trans p q) = member-permᴰ k p ∙ member-permᴰ k q

member-perm : (k : Bytes) (xs ys : List Bytes) → Perm xs ys → member k xs ≡ member k ys
member-perm k xs ys p = ∥∥₁_elim p (Bool-set (member k xs) (member k ys)) (member-permᴰ k)

module _ {F : Type 0} where
  -- The resolutions of the data of the goroutines that succeeded.
  abbrev pub succeeded : List (Bytes × Result (ChartData F)) → List Bytes
  succeeded [] = []
  succeeded ((r, ok chart) ∷ results) = chart.resolution ∷ succeeded results
  succeeded ((r, err e) ∷ results) = succeeded results

  member-collect_all :
      (k : Bytes) (out : MultiChartData F) (results : List (Bytes × Result (ChartData F)))
      → member k (map (λ e. e.0) (collect_all out results).slabs)
        ≡ (member k (succeeded results) || member k (map (λ e. e.0) out.slabs))
  unfolding collect_all member
  member-collect_all k out [] = refl
  member-collect_all k out ((r, ok chart) ∷ results) =
      member-collect_all k (collect out r (ok chart)) results
      ∙ (unfold collect in ground (arith, member-insert k chart.resolution chart out.slabs))
  member-collect_all k out ((r, err e) ∷ results) =
      member-collect_all k (collect out r (err e)) results ∙ (unfold collect in refl)

  -- A FetchMulti that is not refused: its slabs are for the goroutines that succeeded.
  multi_of-succeeded :
      (c : Client F) (g : Goroutines F) (symbol : Bytes) (resolutions : List Bytes) (bars : ℤ)
      → c.is_closed ≡ false
      → resolutions ≢ []
      → (multi : MultiChartData F) × (multi_of c g symbol resolutions bars ≡ ok multi)
        × ((k : Bytes)
            → member k (map (λ e. e.0) multi.slabs)
              ≡ member k (succeeded (g.results resolutions bars)))
  unfolding multi_of fetch_multi member
  multi_of-succeeded c g symbol [] bars opened there = absurd (there refl)
  multi_of-succeeded c g symbol (r ∷ resolutions) bars opened there =
      let results = g.results (r ∷ resolutions) bars in
      let empty : MultiChartData F = record {
        symbol = normalize_symbol symbol;
        slabs = [];
        errors = [];
        fetched_at = 0;
        latency_ms = 0;
      } in
      let asked : (length (r ∷ resolutions) == 0) ≡ false = ground arith in
      (
        record (collect_all empty results) {
          fetched_at = g.fetched;
          latency_ms = milliseconds (g.ended - g.start);
        },
        rw opened (rw asked refl),
        λ k. member-collect_all k empty results ∙ ground arith,
      )

module _ {F Extreme Line : Type 0} ⦃f : Float F⦄ (lib : Library F Extreme Line)
    (z : f.eq (f.lit 0 0) (f.lit 0 0) ≡ true) (c : Client F)
    (sort : (TimeframeAnnotations → TimeframeAnnotations → Bool)
      → List TimeframeAnnotations
      → List TimeframeAnnotations)
    (input : AnalyzeInput) (g : Goroutines F) where
  -- While the client is open and a resolution is asked for, tradingview_analyze gives a value and no
  -- error, and its timeframes are exactly those for which a fetch succeeded: if every fetch failed, it
  -- gives an empty list, and the errors of FetchMulti are dropped. The constant 0 equals itself.
  pub analyze-timeframes :
      Sorts sort
      → c.is_closed ≡ false
      → input.resolutions ≢ []
      → (r : Reply AnalyzeOutput) × (out : AnalyzeOutput) × (analyze lib c sort input g ≡ done r)
        × Gives out r
        × ((tf : Bytes)
            → member tf (map (λ t. t.timeframe) out.timeframes)
              ≡ member tf
                  (succeeded (g.results input.resolutions (default_int input.bars (pos 300)))))
  unfolding analyze
  analyze-timeframes sorts opened some_there =
      let results = g.results input.resolutions (default_int input.bars (pos 300)) in
      let (multi, fetched, slabs) =
        multi_of-succeeded c g input.symbol input.resolutions (default_int input.bars (pos 300))
          opened some_there in
      let (groups, enriched, p) = enrich_multi-timeframes lib z sort multi input.indicators sorts in
      (
        _,
        record { symbol = input.symbol; timeframes = groups },
        rw (fetched, analyze) (rw enriched refl),
        (refl, refl),
        λ tf. member-perm tf _ _ p ∙ slabs tf,
      )
