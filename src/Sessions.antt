-- ===== src/Sessions.antt =====
-- protocol.go, genSessionID: the ids of chart and series sessions. The process-wide counter is passed
-- from call to call; each call gets what the clock reads.
pub mod Fresh
pub mod Tests
use tradingview_go.Common.{suc, List, [], ◌∷◌, ◌++◌, ℤ, pos, negsuc, ◌+ℤ◌, ltb_ℤ, if◌then◌else◌}
use tradingview_go.Text.{Bytes, codes}
use tradingview_go.Text.Decimal.{format_int, max_int}

-- `sessionCounter.Add(1)`, which wraps around at the largest int64.
unfoldable pub bump : ℤ → ℤ
bump n = if ltb_ℤ n (pos max_int) then n +ℤ pos 1 else negsuc max_int

-- The id for a prefix and a clock reading, and the counter after it.
unfoldable pub gen_session_id : Bytes → ℤ → ℤ → Bytes × ℤ
unfolding bump
gen_session_id prefix now counter =
    let n = bump counter in (prefix ++ b'_' ∷ (format_int now ++ b'_' ∷ format_int n), n)

-- The ids of the process's calls, in the order in which they reach the counter.
unfoldable pub session_ids : List (Bytes × ℤ) → ℤ → List Bytes
unfolding gen_session_id
session_ids [] counter = []
session_ids ((prefix, now) ∷ calls) counter =
    let (id, counter') = gen_session_id prefix now counter in id ∷ session_ids calls counter'
