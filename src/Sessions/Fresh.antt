-- ===== src/Sessions/Fresh.antt =====
-- No two calls of genSessionID give the same id.
use tradingview_go.Common.{
  ℕ, suc, ◌+◌, ◌≤◌, ◌<◌, ◌≡◌, ◌≢◌, sym, ◌∙◌, List, [], ◌∷◌, ◌++◌, arith, All, length, append_assoc,
  ℤ, pos,
}
use tradingview_go.Text.{Bytes}
use tradingview_go.Text.Decimal.{format_int, max_int}
use tradingview_go.Text.Cut.{last_sep}
use tradingview_go.Text.Print.{format_int-Lacks, format_int-injective}
use tradingview_go.Sessions.{bump, gen_session_id, session_ids}

-- Every text differs from the later ones.
abbrev pub AreDistinct : List Bytes → Type 0
AreDistinct [] = Unit
AreDistinct (id ∷ ids) = All (λ other. id ≢ other) ids × AreDistinct ids

-- An id with its three parts.
abbrev id_text : Bytes → ℤ → ℕ → Bytes
id_text prefix now n = prefix ++ b'_' ∷ (format_int now ++ b'_' ∷ format_int (pos n))

bump-pos : (n : ℕ) → n < max_int → bump (pos n) ≡ pos (suc n)
unfolding bump
bump-pos n h = ground arith

-- The counter of an id is read off its end.
id_text-counter :
    (p q : Bytes) (now later : ℤ) (m n : ℕ)
    → m ≤ max_int
    → n ≤ max_int
    → id_text p now m ≡ id_text q later n
    → m ≡ n
id_text-counter p q now later m n hm hn e =
    let regroup = λ (s : Bytes) (t : ℤ) (k : ℕ).
      append_assoc s (b'_' ∷ format_int t) (b'_' ∷ format_int (pos k)) in
    let (_, last) =
      last_sep b'_' (p ++ b'_' ∷ format_int now) (q ++ b'_' ∷ format_int later) (format_int (pos m))
        (format_int (pos n)) (format_int-Lacks b'_' (omega arith) (pos m))
        (format_int-Lacks b'_' (omega arith) (pos n))
        (regroup p now m ∙ (e ∙ sym (regroup q later n))) in
    let same : pos m ≡ pos n = format_int-injective (pos m) (pos n) hm hn last in ground arith

-- An id differs from those of the calls that find the counter at its own or beyond.
later_ids :
    (p : Bytes) (now : ℤ) (m n : ℕ) (calls : List (Bytes × ℤ))
    → m ≤ n
    → n + length calls ≤ max_int
    → All (λ other. id_text p now m ≢ other) (session_ids calls (pos n))
unfolding session_ids gen_session_id
later_ids p now m n [] le bound = tt
later_ids p now m n ((q, later) ∷ calls) le bound = rw (bump-pos n (omega arith)) (
  (λ e. omega (arith, id_text-counter p q now later m (suc n) (omega arith) (omega arith) e)),
  later_ids p now m (suc n) calls (omega arith) (omega arith),
)

-- The ids of a process are pairwise different, whatever the prefixes and the clock readings are, as
-- long as there are at most 2^63 - 1 calls.
pub session_ids-AreDistinct :
    (calls : List (Bytes × ℤ)) (n : ℕ)
    → n + length calls ≤ max_int
    → AreDistinct (session_ids calls (pos n))
unfolding session_ids gen_session_id
session_ids-AreDistinct [] n bound = tt
session_ids-AreDistinct ((p, now) ∷ calls) n bound = rw (bump-pos n (omega arith)) (
  later_ids p now (suc n) (suc n) calls (omega arith) (omega arith),
  session_ids-AreDistinct calls (suc n) (omega arith),
)
