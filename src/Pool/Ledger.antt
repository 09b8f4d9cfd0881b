-- ===== src/Pool/Ledger.antt =====
-- What becomes of the connections: the calls of conn.close that acquire, release, the reaper and close
-- make, counted over a run. Those that reapIdle and close make behind the lock count with their section.
use tradingview_go.Common.{
  ltb, ℕ, ◌+◌, ◌<◌, ◌≡◌, refl, ap, true, List, [], ◌∷◌, arith, if◌then◌else◌, map,
}
use tradingview_go.Pool.{PooledConn, Pool, new_pool, reap_scan, reap_idle, close_pool}
use tradingview_go.Pool.World.{
  Semaphore, Phase, leaving, World, new_world, Move, takes, dials, dial_fails, gives, closes, Step,
  enters, moves, leaves, reaps, shuts, Reach, here, next_step,
}
use tradingview_go.Pool.Sections.{one, count_free, count_phase, take_free-Taken, give_back-Given}
use tradingview_go.Pool.Exclusive.{count_threads, count_threads-append, users}
use tradingview_go.Pool.Capacity.{closed-free}
use tradingview_go.Pool.Reuse.{reap_scan_splits}

-- How often a list of connections to close has `c`.
abbrev pub count_conns : ℕ → List ℕ → ℕ
count_conns c [] = 0
count_conns c (d ∷ l) = one c d + count_conns c l

count_conns-map :
    (c : ℕ) (l : List PooledConn) → count_conns c (map (λ pc. pc.conn) l) ≡ count_free c l
unfolding count_free
count_conns-map c [] = refl
count_conns-map c (pc ∷ l) = omega (arith, count_conns-map c l)

reap_idle-count :
    (c : ℕ) (p : Pool) (now : ℕ)
    → count_free c (reap_idle p now).0.free + count_conns c (reap_idle p now).1
      ≡ count_free c p.free
unfolding reap_idle
reap_idle-count c p now =
    let (_, _, split) = reap_scan_splits p.idle_timeout now p.free in
    omega (arith, split c, count_conns-map c (reap_scan p.idle_timeout now p.free).1)

close_pool-count :
    (c : ℕ) (p : Pool)
    → count_free c (close_pool p).0.free + count_conns c (close_pool p).1 ≡ count_free c p.free
unfolding close_pool count_free
close_pool-count c p = ground (arith, count_conns-map c p.free)

module _ {size : ℕ} (S : Semaphore size) where
  -- How often a step closes the connection `c`.
  unfoldable pub closes_in_move :
      {p p' : Pool} {n n' : ℕ} {a b : Phase} → Move S p n a p' n' b → ℕ → ℕ
  closes_in_move (takes p n) c = 0
  closes_in_move (dials p n) c = 0
  closes_in_move (dial_fails p n) c = 0
  closes_in_move (gives p n d healthy now) c = 0
  closes_in_move (closes p n d) c = one c d

  unfoldable pub closes_in_step : {w w' : World S} → Step S w w' → ℕ → ℕ
  closes_in_step (enters w s e) c = 0
  closes_in_step (moves w xs ys a b p n e m) c = closes_in_move m c
  closes_in_step (leaves w xs ys e) c = 0
  closes_in_step (reaps w now) c = count_conns c (reap_idle w.pool now).1
  closes_in_step (shuts w) c = count_conns c (close_pool w.pool).1

  -- How often a run closed the connection `c`.
  unfoldable pub closed_in : {idle_timeout : ℕ} {w : World S} → Reach S idle_timeout w → ℕ → ℕ
  closed_in here c = 0
  closed_in (next_step r s) c = closed_in r c + closes_in_step s c

  -- One for a connection that dial has made.
  abbrev pub made : ℕ → ℕ → ℕ
  made c n = if ltb c n then 1 else 0

  Move-ledger :
      {p p' : Pool} {n n' : ℕ} {a b : Phase} (m : Move S p n a p' n' b) (c : ℕ)
      → count_phase c b + count_free c p'.free + closes_in_move m c + made c n
        ≡ count_phase c a + count_free c p.free + made c n'
  unfolding closes_in_move
  Move-ledger (takes p n) c = omega (arith, (take_free-Taken p).counted c)
  Move-ledger (dials p n) c = ground arith
  Move-ledger (dial_fails p n) c = omega arith
  Move-ledger (gives p n d healthy now) c =
      omega (arith, (give_back-Given p d healthy now).counted c)
  Move-ledger (closes p n d) c = omega arith

  Step-ledger :
      {w w' : World S} (s : Step S w w') (c : ℕ)
      → users S c w' + closes_in_step s c + made c w.next ≡ users S c w + made c w'.next
  unfolding closes_in_step
  Step-ledger (enters w s e) c = omega arith
  Step-ledger (moves w xs ys a b p n e m) c = omega (
    arith,
    Move-ledger m c,
    ap (count_threads c) e,
    count_threads-append c xs (a ∷ ys),
    count_threads-append c xs (b ∷ ys),
  )
  Step-ledger (leaves w xs ys e) c = omega (
    arith,
    ap (count_threads c) e,
    count_threads-append c xs (leaving ∷ ys),
    count_threads-append c xs ys,
  )
  Step-ledger (reaps w now) c = omega (arith, reap_idle-count c w.pool now)
  Step-ledger (shuts w) c = omega (arith, close_pool-count c w.pool)

  -- However acquire, release, the reaper and close interleave, a connection that dial has made is
  -- either with one goroutine, or once among the free ones, or was closed, and closed only once; a
  -- connection that was not made is nowhere and was never closed.
  pub users-closed_in :
      {idle_timeout : ℕ} {w : World S} (r : Reach S idle_timeout w) (c : ℕ)
      → users S c w + closed_in r c ≡ (if ltb c w.next then 1 else 0)
  unfolding closed_in new_world new_pool count_free
  users-closed_in here c = ground arith
  users-closed_in (next_step r s) c = omega (arith, users-closed_in r c, Step-ledger s c)

  -- When the pool is closed and no goroutine holds a slot any more, every connection that dial has made
  -- was closed exactly once.
  pub closed_in-drained :
      {idle_timeout : ℕ} {w : World S} (r : Reach S idle_timeout w) (c : ℕ)
      → w.pool.closed ≡ true
      → w.threads ≡ []
      → c < w.next
      → closed_in r c ≡ 1
  unfolding count_free
  closed_in-drained {w} r c shut idle dialed =
      let none_free : count_free c w.pool.free ≡ 0 = ap (count_free c) (closed-free S r shut) in
      let none_used : count_threads c w.threads ≡ 0 = ap (count_threads c) idle in
      ground (arith, users-closed_in r c, none_free, none_used)
