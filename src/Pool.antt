-- ===== src/Pool.antt =====
-- pool.go: the bounded pool of connections. Each function here is one section under the pool's
-- mutex; Pool/World puts them together with the semaphore and the goroutines between them.
pub mod World
pub mod Sections
pub mod Exclusive
pub mod Capacity
pub mod Ledger
pub mod Reuse
pub mod Tests
use tradingview_go.Common.{
  ℕ, ◌+◌, Bool, true, false, ◌||◌, not, Option, none, some, List, [], ◌∷◌, ◌++◌, ltb, if◌then◌else◌,
  map,
}

-- A connection is known by a number, its pointer.
pub record PooledConn : Type 0 where
  pub conn : ℕ
  pub idle_since : ℕ

-- The pool without its semaphore. `free` is in the order of the Go slice.
pub record Pool : Type 0 where
  pub idle_timeout : ℕ
  pub free : List PooledConn
  pub closed : Bool

unfoldable pub new_pool : ℕ → Pool
new_pool idle_timeout = record { idle_timeout = idle_timeout; free = []; closed = false }

-- `p.free[:n-1]` and `p.free[n-1]`
unfoldable pub split_last : List PooledConn → Option (List PooledConn × PooledConn)
split_last [] = none
split_last (x ∷ l) = elim (split_last l) [
  | none ↦ some ([], x)
  | some (front, last) ↦ some (x ∷ front, last)
]

pub data Acquired : Type 0 where
  pool_closed must_dial : Acquired
  reuse : ℕ → Acquired

-- acquire, from Lock to Unlock
unfoldable pub take_free : Pool → Acquired × Pool
take_free p = if p.closed then (pool_closed, p) else elim (split_last p.free) [
  | some (rest, pc) ↦ (reuse pc.conn, record p { free = rest })
  | none ↦ (must_dial, p)
]

-- release of a conn that is not nil, from Lock to Unlock: the pool, and whether the conn is to be
-- closed
unfoldable pub give_back : Pool → ℕ → Bool → ℕ → Pool × Bool
give_back p c healthy now =
    let closing = p.closed || not healthy in
    if closing
    then (p, closing)
    else (record p { free = p.free ++ (record { conn = c; idle_since = now } ∷ []) }, closing)

-- The loop of reapIdle: the conns to keep, and those to drop.
unfoldable pub reap_scan : ℕ → ℕ → List PooledConn → List PooledConn × List PooledConn
reap_scan timeout now [] = ([], [])
reap_scan timeout now (pc ∷ l) =
    let (keep, drop) = reap_scan timeout now l in
    if ltb (pc.idle_since + timeout) now then (keep, pc ∷ drop) else (pc ∷ keep, drop)

-- reapIdle at the time `now`: the pool, and the conns that are closed behind the lock. The cutoff is
-- `now - IdleConnTimeout`.
unfoldable pub reap_idle : Pool → ℕ → Pool × List ℕ
reap_idle p now =
    let (keep, drop) = reap_scan p.idle_timeout now p.free in
    (record p { free = keep }, map (λ pc. pc.conn) drop)

-- close: the pool, and the conns that are closed behind the lock
unfoldable pub close_pool : Pool → Pool × List ℕ
close_pool p =
    if p.closed
    then (p, [])
    else (record p { closed = true; free = [] }, map (λ pc. pc.conn) p.free)
