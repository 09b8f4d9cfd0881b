-- ===== src/Client/Maps.antt =====
-- FetchMulti: what its maps hold is what its goroutines ended with.
use tradingview_go.Common.{
  ◌-◌, ℕ, ◌≡◌, refl, sym, ap, ◌∙◌, ◌⊎◌, inl, inr, some, List, [], ◌∷◌, arith, Bool-cases,
}
use tradingview_go.Text.{Bytes, beq, beq_iff}
use tradingview_go.Types.{ChartData, MultiChartData}
use tradingview_go.Errors.{Error, Result, ok, err, error_text}
use tradingview_go.Symbols.{lookup, normalize_symbol}
use tradingview_go.Client.{Client, fetch_multi, milliseconds, insert, collect, collect_all}
use tradingview_go.Client.Multi.{Ended, lookup-insert}

insert-cases :
    {V : Type 0} (k j : Bytes) (v x : V) (m : List (Bytes × V))
    → lookup j (insert k v m) ≡ some x
    → ((k ≡ j) × (v ≡ x)) ⊎ (lookup j m ≡ some x)
insert-cases k j v x m e = elim (Bool-cases (beq k j)) [
  | inl same ↦ inl ((beq_iff k j).0 same, ground (arith, lookup-insert k j v m))
  | inr other ↦ inr (ground (arith, lookup-insert k j v m))
]

module _ {F : Type 0} where
  -- A slab is the chart of a goroutine that ended well, under the resolution of the chart.
  collect_all-slabs :
      (out : MultiChartData F) (results : List (Bytes × Result (ChartData F))) (k : Bytes)
      {chart : ChartData F}
      → lookup k (collect_all out results).slabs ≡ some chart
      → ((r : Bytes) × Ended r (ok chart) results × (chart.resolution ≡ k))
        ⊎ (lookup k out.slabs ≡ some chart)
  unfolding collect_all
  collect_all-slabs out [] k e = inr e
  collect_all-slabs out ((r, res) ∷ rest) k {chart} e =
      elim (collect_all-slabs (collect out r res) rest k {chart = chart} e) [
        | inl (s, ended, is) ↦ inl (s, inr ended, is)
        | inr there ↦ first res there
      ]
    where
      first :
          (res : Result (ChartData F))
          → lookup k (collect out r res).slabs ≡ some chart
          → ((s : Bytes) × Ended s (ok chart) ((r, res) ∷ rest) × (chart.resolution ≡ k))
            ⊎ (lookup k out.slabs ≡ some chart)
      first (err x) there = inr (unfold collect in there)
      first (ok d) there =
          elim (insert-cases d.resolution k d chart out.slabs (unfold collect in there)) [
            | inl (under, same) ↦
                inl (r, inl (refl, ap ok same), ap (λ d. d.resolution) (sym same) ∙ under)
            | inr before ↦ inr before
          ]

  -- An error is the text of the error of a goroutine with its resolution.
  collect_all-errors :
      (out : MultiChartData F) (results : List (Bytes × Result (ChartData F))) (r : Bytes)
      {text : Bytes}
      → lookup r (collect_all out results).errors ≡ some text
      → ((e : Error) × Ended r (err e) results × (error_text e ≡ text))
        ⊎ (lookup r out.errors ≡ some text)
  unfolding collect_all
  collect_all-errors out [] r e = inr e
  collect_all-errors out ((s, res) ∷ rest) r {text} e =
      elim (collect_all-errors (collect out s res) rest r {text = text} e) [
        | inl (x, ended, is) ↦ inl (x, inr ended, is)
        | inr there ↦ first res there
      ]
    where
      first :
          (res : Result (ChartData F))
          → lookup r (collect out s res).errors ≡ some text
          → ((e : Error) × Ended r (err e) ((s, res) ∷ rest) × (error_text e ≡ text))
            ⊎ (lookup r out.errors ≡ some text)
      first (ok d) there = inr (unfold collect in there)
      first (err x) there =
          elim (insert-cases s r (error_text x) text out.errors (unfold collect in there)) [
            | inl (same, is) ↦ inl (x, inl (same, refl), is)
            | inr before ↦ inr before
          ]

  -- Nothing else is in the maps.
  pub fetch_multi-maps :
      (c : Client F) (symbol : Bytes) (resolutions : List Bytes)
      (results : List (Bytes × Result (ChartData F))) (start fetched done : ℕ)
      {out : MultiChartData F}
      → fetch_multi c symbol resolutions results start fetched done ≡ ok out
      → ((k : Bytes) (chart : ChartData F)
          → lookup k out.slabs ≡ some chart
          → (r : Bytes) × Ended r (ok chart) results × (chart.resolution ≡ k))
        × ((r text : Bytes)
            → lookup r out.errors ≡ some text
            → (e : Error) × Ended r (err e) results × (error_text e ≡ text))
  unfolding fetch_multi lookup
  fetch_multi-maps c symbol resolutions results start fetched done {out} e =
      let empty : MultiChartData F = record {
        symbol = normalize_symbol symbol;
        slabs = [];
        errors = [];
        fetched_at = 0;
        latency_ms = 0;
      } in
      let all = collect_all empty results in
      let is : out ≡ record all { fetched_at = fetched; latency_ms = milliseconds (done - start) } =
        ground arith in
      (
        λ k chart there.
            elim (collect_all-slabs empty results k {chart = chart}
              (ap (λ o. lookup k o.slabs) (sym is) ∙ there)) [
                | inl found ↦ found
                | inr never ↦ absurd (ground arith)
              ],
        λ r text there.
            elim (collect_all-errors empty results r {text = text}
              (ap (λ o. lookup r o.errors) (sym is) ∙ there)) [
                | inl found ↦ found
                | inr never ↦ absurd (ground arith)
              ],
      )
