-- ===== src/Ta/Tests/Sorting.antt =====
-- An insertion sort by rank, which is what EnrichMulti asks of sort.Slice.
use mathlib.Core.Logic.Or
use mathlib.Core.List.{Mem, Perm, Pairwise, mem-cons, Pairwise-singleton}
use mathlib.Core.List.Pairwise
use mathlib.Core.List.Perm
use native.Mathlib.Bridge.{le_prop}
use tradingview_go.Common.{◌≤◌, Bool, List, [], ◌∷◌, arith, if◌then◌else◌, Bool-cases, inl, inr}
use tradingview_go.Ta.Pipeline.{TimeframeAnnotations, ranks_below, tf_rank}
use tradingview_go.Ta.Pipeline.Order.{IsAscending, Sorts}

module _ (less : TimeframeAnnotations → TimeframeAnnotations → Bool) where
  insert : TimeframeAnnotations → List TimeframeAnnotations → List TimeframeAnnotations
  insert a [] = a ∷ []
  insert a (b ∷ l) = if less b a then b ∷ insert a l else a ∷ (b ∷ l)

  unfoldable pub insertion_sort : List TimeframeAnnotations → List TimeframeAnnotations
  unfolding insert
  insertion_sort [] = []
  insertion_sort (a ∷ l) = insert a (insertion_sort l)

  insert-perm :
      (a : TimeframeAnnotations) (l : List TimeframeAnnotations) → Perm (insert a l) (a ∷ l)
  unfolding insert
  insert-perm a [] = Perm.refl _
  insert-perm a (b ∷ l) = elim (Bool-cases (less b a)) [
    | inl behind ↦ rw behind (Perm.trans (Perm.cons b (insert-perm a l)) (Perm.swap a b l))
    | inr before ↦ rw before (Perm.refl _)
  ]

  insertion_sort-perm : (l : List TimeframeAnnotations) → Perm (insertion_sort l) l
  unfolding insertion_sort
  insertion_sort-perm [] = Perm.refl _
  insertion_sort-perm (a ∷ l) =
      Perm.trans (insert-perm a (insertion_sort l)) (Perm.cons a (insertion_sort-perm l))

-- No group of the list ranks below this one.
abbrev IsFirst : TimeframeAnnotations → List TimeframeAnnotations → Type 0
IsFirst a l = (b : TimeframeAnnotations) → Mem b l → tf_rank a.timeframe ≤ tf_rank b.timeframe

IsAscending-cons :
    (a : TimeframeAnnotations) {l : List TimeframeAnnotations}
    → IsFirst a l
    → IsAscending l
    → IsAscending (a ∷ l)
IsAscending-cons a first s = Pairwise.cons (λ b m. let h = first b m in ground arith) s

IsFirst-of_IsAscending :
    {a : TimeframeAnnotations} {l : List TimeframeAnnotations} → IsAscending (a ∷ l) → IsFirst a l
IsFirst-of_IsAscending (Pairwise.cons h s) b m = let e = h b m in ground arith

insert-IsAscending :
    (a : TimeframeAnnotations) (l : List TimeframeAnnotations)
    → IsAscending l
    → IsAscending (insert ranks_below a l)
unfolding insert
insert-IsAscending a [] s = Pairwise-singleton _ a
insert-IsAscending a (b ∷ l) s =
    let first = IsFirst-of_IsAscending s in
    elim (Bool-cases (ranks_below b a)) [
      | inl behind ↦ rw behind (
          IsAscending-cons b
            (λ x m.
              Or.elim le_prop (mem-cons.0 ((Perm.mem_iff (insert-perm ranks_below a l)).0 m))
                (λ e. rw e (ground arith)) (first x))
            (insert-IsAscending a l (Pairwise.of_cons s)))
      | inr before ↦ rw before (
          IsAscending-cons a
            (λ x m.
              Or.elim le_prop (mem-cons.0 m) (λ e. rw e (ground arith))
                λ later. let h = first x later in ground arith)
            s)
    ]

insertion_sort-IsAscending :
    (l : List TimeframeAnnotations) → IsAscending (insertion_sort ranks_below l)
unfolding insertion_sort
insertion_sort-IsAscending [] = Pairwise.nil
insertion_sort-IsAscending (a ∷ l) =
    insert-IsAscending a (insertion_sort ranks_below l) (insertion_sort-IsAscending l)

pub insertion_sort-Sorts : Sorts insertion_sort
insertion_sort-Sorts l = (insertion_sort-perm ranks_below l, insertion_sort-IsAscending l)
