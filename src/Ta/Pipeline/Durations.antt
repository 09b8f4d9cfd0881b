-- ===== src/Ta/Pipeline/Durations.antt =====
-- The timeframes by how long they are: what the ranks of ta/ta.go are to stand for.
use mathlib.Core.Option
use tradingview_go.Common.{
  ℕ, ◌*◌, ◌≤◌, ◌≡◌, refl, sym, ap, ◌∙◌, inl, inr, none, some, List, [], ◌∷◌, map, arith, leb,
  if◌then◌else◌, Option-cases,
}
use tradingview_go.Text.{Bytes, codes}
use tradingview_go.Symbols.{lookup}
use tradingview_go.Ta.Pipeline.{tf_order, tf_rank}

-- A timeframe in minutes; a month has 30 days.
abbrev pub durations : List (Bytes × ℕ)
durations =
    (codes "1", 1)
    ∷ (codes "5", 5)
    ∷ (codes "15", 15)
    ∷ (codes "30", 30)
    ∷ (codes "60", 60)
    ∷ (codes "120", 120)
    ∷ (codes "240", 240)
    ∷ (codes "D", 24 * 60)
    ∷ (codes "W", 7 * 24 * 60)
    ∷ (codes "M", 30 * 24 * 60)
    ∷ []

-- Another timeframe, also 3, 45 and 180, counts as longer than all of these.
unfoldable pub minutes : Bytes → ℕ
minutes tf = elim (lookup tf durations) [ some m ↦ m | none ↦ 31 * 24 * 60 ]

-- The minutes of a rank.
of_rank : ℕ → ℕ
of_rank r =
    if leb r 1
    then 1
    else if leb r 2
    then 5
    else if leb r 3
    then 15
    else if leb r 4
    then 30
    else if leb r 5
    then 60
    else if leb r 6
    then 120
    else if leb r 7
    then 240
    else if leb r 8
    then 24 * 60
    else if leb r 9
    then 7 * 24 * 60
    else if leb r 10
    then 30 * 24 * 60
    else 31 * 24 * 60

of_rank-le : (r s : ℕ) → r ≤ s → of_rank r ≤ of_rank s
unfolding of_rank
of_rank-le r s h = ground arith

lookup-map :
    {V W : Type 0} (g : V → W) (k : Bytes) (m : List (Bytes × V))
    → lookup k (map (λ e. (e.0, g e.1)) m) ≡ Option.map g (lookup k m)
unfolding lookup
lookup-map g k [] = refl
lookup-map g k ((j, v) ∷ m) = ground (arith, lookup-map g k m)

table : map (λ e. (e.0, of_rank e.1)) tf_order ≡ durations
unfolding of_rank tf_order
table = refl

minutes-tf_rank : (tf : Bytes) → minutes tf ≡ of_rank (tf_rank tf)
unfolding minutes tf_rank of_rank
minutes-tf_rank tf =
    let there = ap (lookup tf) (sym table) ∙ lookup-map of_rank tf tf_order in
    elim (Option-cases (lookup tf tf_order)) [
      | inl absent ↦
          let m : lookup tf durations ≡ none = there ∙ ap (Option.map of_rank) absent in
          rw (m, minutes) (rw (absent, tf_rank) refl)
      | inr (r, found) ↦
          let m : lookup tf durations ≡ some (of_rank r) = there ∙ ap (Option.map of_rank) found in
          rw (m, minutes) (rw (found, tf_rank) refl)
    ]

-- A timeframe that does not rank behind another one is not longer.
pub tf_rank-minutes : (s t : Bytes) → tf_rank s ≤ tf_rank t → minutes s ≤ minutes t
tf_rank-minutes s t h =
    rw (minutes-tf_rank s, minutes-tf_rank t) (of_rank-le (tf_rank s) (tf_rank t) h)
