-- ===== src/Client/Multi.antt =====
-- FetchMulti keeps what succeeded: one failure loses nothing of the others.
use tradingview_go.Common.{
  ◌-◌, ℕ, ◌≡◌, ◌≢◌, refl, ◌⊎◌, inl, inr, none, some, List, [], ◌∷◌, arith, if◌then◌else◌,
}
use tradingview_go.Text.{Bytes, beq, beq_iff}
use tradingview_go.Types.{ChartData, MultiChartData}
use tradingview_go.Errors.{Result, ok, err, error_text}
use tradingview_go.Symbols.{normalize_symbol, lookup}
use tradingview_go.Client.{Client, fetch_multi, milliseconds, insert, collect, collect_all}

pub lookup-insert :
    {V : Type 0} (k j : Bytes) (v : V) (m : List (Bytes × V))
    → lookup j (insert k v m) ≡ (if beq k j then some v else lookup j m)
unfolding lookup insert
lookup-insert k j v [] = refl
lookup-insert k j v ((i, w) ∷ m) =
    ground (arith, beq_iff k j, beq_iff i k, beq_iff i j, lookup-insert k j v m)

insert-some :
    {V : Type 0} (k j : Bytes) (v : V) (m : List (Bytes × V))
    → lookup j m ≢ none
    → lookup j (insert k v m) ≢ none
insert-some k j v m h = rw (lookup-insert k j v m) (ground arith)

insert-there :
    {V : Type 0} (k : Bytes) (v : V) (m : List (Bytes × V)) → lookup k (insert k v m) ≢ none
insert-there k v m = rw (lookup-insert k k v m) (ground (arith, beq_iff k k))

-- A goroutine with this resolution and result is among those that ended.
abbrev pub Ended :
    {F : Type 0} → Bytes → Result (ChartData F) → List (Bytes × Result (ChartData F)) → Type 0
Ended r res [] = ⊥
Ended r res ((q, other) ∷ rest) = ((q ≡ r) × (other ≡ res)) ⊎ Ended r res rest

module _ {F : Type 0} where
  -- What has an entry keeps one.
  collect_all-keeps :
      (out : MultiChartData F) (results : List (Bytes × Result (ChartData F))) (k : Bytes)
      → (lookup k out.slabs ≢ none → lookup k (collect_all out results).slabs ≢ none)
        × (lookup k out.errors ≢ none → lookup k (collect_all out results).errors ≢ none)
  unfolding collect_all
  collect_all-keeps out [] k = (λ h. h, λ h. h)
  collect_all-keeps out ((r, ok chart) ∷ rest) k =
      let (slabs, errors) = collect_all-keeps (collect out r (ok chart)) rest k in
      unfold collect in (λ h. slabs (insert-some chart.resolution k chart out.slabs h), errors)
  collect_all-keeps out ((r, err e) ∷ rest) k =
      let (slabs, errors) = collect_all-keeps (collect out r (err e)) rest k in
      unfold collect in (slabs, λ h. errors (insert-some r k (error_text e) out.errors h))

  -- The output has an entry for this goroutine: data under the resolution of its data, or an error
  -- under the resolution it was asked for.
  abbrev pub Recorded : Bytes → Result (ChartData F) → MultiChartData F → Type 0
  Recorded r (ok chart) out = lookup chart.resolution out.slabs ≢ none
  Recorded r (err e) out = lookup r out.errors ≢ none

  collect-Recorded :
      (out : MultiChartData F) (r : Bytes) (res : Result (ChartData F))
      → Recorded r res (collect out r res)
  unfolding collect
  collect-Recorded out r (ok chart) = insert-there chart.resolution chart out.slabs
  collect-Recorded out r (err e) = insert-there r (error_text e) out.errors

  Recorded-keeps :
      (out : MultiChartData F) (results : List (Bytes × Result (ChartData F))) (r : Bytes)
      (res : Result (ChartData F))
      → Recorded r res out
      → Recorded r res (collect_all out results)
  Recorded-keeps out results r (ok chart) h = (collect_all-keeps out results chart.resolution).0 h
  Recorded-keeps out results r (err e) h = (collect_all-keeps out results r).1 h

  collect_all-Recorded :
      (out : MultiChartData F) (results : List (Bytes × Result (ChartData F))) (r : Bytes)
      (res : Result (ChartData F))
      → Ended r res results
      → Recorded r res (collect_all out results)
  unfolding collect_all
  collect_all-Recorded out [] r res never = elim never [ ]
  collect_all-Recorded out ((q, other) ∷ rest) r res (inl (e, e')) =
      rw (e, e') (Recorded-keeps (collect out r res) rest r res (collect-Recorded out r res))
  collect_all-Recorded out ((q, other) ∷ rest) r res (inr later) =
      collect_all-Recorded (collect out q other) rest r res later

module _ {F : Type 0} (c : Client F) (symbol : Bytes) (resolutions : List Bytes)
    (results : List (Bytes × Result (ChartData F))) (start fetched done : ℕ) where
  -- A FetchMulti that succeeds has the outcome of every goroutine in its output, data or error,
  -- whatever the order in which they end and whatever happens to the others.
  pub fetch_multi-Recorded :
      {out : MultiChartData F}
      → fetch_multi c symbol resolutions results start fetched done ≡ ok out
      → (r : Bytes) (res : Result (ChartData F)) → Ended r res results
      → Recorded r res out
  unfolding fetch_multi
  fetch_multi-Recorded {out} e r res ended =
      let empty : MultiChartData F = record {
        symbol = normalize_symbol symbol;
        slabs = [];
        errors = [];
        fetched_at = 0;
        latency_ms = 0;
      } in
      let all = collect_all empty results in
      let recorded = collect_all-Recorded empty results r res ended in
      let is : out ≡ record all { fetched_at = fetched; latency_ms = milliseconds (done - start) } =
        ground arith in
      rw is (same r res all recorded)
    where
      same :
          (r : Bytes) (res : Result (ChartData F)) (all : MultiChartData F)
          → Recorded r res all
          → Recorded r res
              (record all { fetched_at = fetched; latency_ms = milliseconds (done - start) })
      same r (ok chart) all h = h
      same r (err x) all h = h
