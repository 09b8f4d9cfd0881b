-- ===== src/Pool/Reuse.antt =====
-- What the pool does with one connection: the last one back is the next one out, and the reaper
-- drops those, and only those, that idled past the cutoff.
use tradingview_go.Common.{
  ℕ, ◌+◌, ◌≤◌, ◌<◌, ◌≡◌, refl, true, false, some, List, [], ◌∷◌, ◌++◌, arith, All,
}
use tradingview_go.Pool.{Pool, PooledConn, reuse, split_last, take_free, give_back, reap_scan}
use tradingview_go.Pool.Sections.{count_free}

split_last-append :
    (l : List PooledConn) (pc : PooledConn) → split_last (l ++ pc ∷ []) ≡ some (l, pc)
unfolding split_last
split_last-append [] pc = refl
split_last-append (x ∷ l) pc = rw (split_last-append l pc)

-- A healthy connection that is given back to an open pool is the next one that acquire hands out,
-- and the pool is then as it was before.
pub take_free-give_back :
    (p : Pool) (c now : ℕ) → p.closed ≡ false → take_free (give_back p c true now).0 ≡ (reuse c, p)
unfolding take_free give_back
take_free-give_back p c now opened =
    ground (arith, split_last-append p.free (record { conn = c; idle_since = now }))

-- A connection that is closed for idling too long.
abbrev pub IsStale : ℕ → ℕ → PooledConn → Type 0
IsStale timeout now pc = pc.idle_since + timeout < now

abbrev pub IsFresh : ℕ → ℕ → PooledConn → Type 0
IsFresh timeout now pc = now ≤ pc.idle_since + timeout

-- The reaper's scan splits the free connections: none is lost or doubled, those kept are fresh and
-- those dropped are stale.
pub reap_scan_splits :
    (timeout now : ℕ) (l : List PooledConn)
    → All (IsFresh timeout now) (reap_scan timeout now l).0
      × All (IsStale timeout now) (reap_scan timeout now l).1
      × ((c : ℕ)
          → count_free c (reap_scan timeout now l).0 + count_free c (reap_scan timeout now l).1
            ≡ count_free c l)
unfolding reap_scan count_free
reap_scan_splits timeout now [] = (tt, tt, λ c. refl)
reap_scan_splits timeout now (pc ∷ l) =
    let (fresh, stale, count) = reap_scan_splits timeout now l in
    (ground (arith, fresh), ground (arith, stale), λ c. ground (arith, count c))
