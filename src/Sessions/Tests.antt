-- ===== src/Sessions/Tests.antt =====
-- Session ids of one moment.
use tradingview_go.Common.{List, [], ◌∷◌, ℤ, pos, arith}
use tradingview_go.Text.{Bytes, codes}
use tradingview_go.Sessions.{session_ids}
use tradingview_go.Sessions.Fresh
use tradingview_go.Sessions.Fresh.{AreDistinct}

-- The two calls of a fetch and those of another connection, with one clock reading.
abbrev two_fetches : List (Bytes × ℤ)
two_fetches =
    (codes "cs", pos 1_700_000_000_000_000_000)
    ∷ (codes "sds", pos 1_700_000_000_000_000_000)
    ∷ (codes "cs", pos 1_700_000_000_000_000_000)
    ∷ []

session_ids-AreDistinct_example : AreDistinct (session_ids two_fetches (pos 0))
session_ids-AreDistinct_example = Fresh.session_ids-AreDistinct two_fetches 0 (omega arith)
