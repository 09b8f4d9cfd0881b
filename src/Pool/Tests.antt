-- ===== src/Pool/Tests.antt =====
-- A run of a pool with two slots, and the theorems on it.
use tradingview_go.Common.{
  ℕ, suc, ◌+◌, ◌-◌, ◌≤◌, ◌<◌, ◌≡◌, refl, true, false, Option, none, some, [], ◌∷◌, arith, length,
  ltb, if◌then◌else◌,
}
use tradingview_go.Pool.{Pool, new_pool, split_last, take_free, give_back, close_pool}
use tradingview_go.Pool.World.{
  Semaphore, World, choosing, leased, dialing, new_world, takes, dials, enters, moves, shuts,
  leaving, closing, gives, closes, leaves, Reach, here, next_step,
}
use tradingview_go.Pool.Capacity
use tradingview_go.Pool.Capacity.{count_busy}
use tradingview_go.Pool.Ledger
use tradingview_go.Pool.Ledger.{closed_in}
use tradingview_go.Pool.Exclusive.{users}

counter_try : ℕ → Option ℕ
counter_try n = if ltb n 2 then some (suc n) else none

counter_try_lem : (n : ℕ) {m : ℕ} → counter_try n ≡ some m → (m ≡ suc n) × (m ≤ 2)
unfolding counter_try
counter_try_lem n e = ground arith

counter_give : (n : ℕ) → 0 < n → suc (n - 1) ≡ n
counter_give n h = omega arith

-- A semaphore with two slots, as a counter.
abbrev counter : Semaphore 2
counter = record {
  State = ℕ;
  start = 0;
  try = counter_try;
  give = λ n. n - 1;
  held = λ n. n;
  held-start = refl;
  held-try = counter_try_lem;
  held-give = counter_give;
}

abbrev w0 : World counter
w0 = new_world counter 10

abbrev w1 : World counter
w1 = record { pool = new_pool 10; sem = 1; threads = choosing ∷ []; next = 0 }

abbrev w2 : World counter
w2 = record w1 { threads = dialing ∷ [] }

abbrev w3 : World counter
w3 = record w1 { threads = leased 0 ∷ []; next = 1 }

-- One goroutine has dialed the connection 0.
one_lease : Reach counter 10 w3
unfolding new_world new_pool counter_try take_free split_last
one_lease =
    next_step
      (next_step (next_step here (enters w0 1 refl))
        (moves w1 [] [] choosing dialing (new_pool 10) 0 refl (takes (new_pool 10) 0)))
      (moves w2 [] [] dialing (leased 0) (new_pool 10) 1 refl (dials (new_pool 10) 0))

-- The pool is closed under it.
abbrev w4 : World counter
w4 = record w3 { pool = (close_pool w3.pool).0 }

users-closed_in_example : users counter 0 w3 + closed_in counter one_lease 0 ≡ 1
users-closed_in_example = Ledger.users-closed_in counter one_lease 0

Reach-bounds_example :
    (count_busy w3.threads + length w3.pool.free ≤ 2)
    × (length w3.threads ≤ 2)
    × (w3.sem ≡ length w3.threads)
Reach-bounds_example = Capacity.Reach-bounds counter one_lease

-- The goroutine returns its connection to the closed pool, which closes it.
abbrev p4 : Pool
p4 = record { idle_timeout = 10; free = []; closed = true }

abbrev w5 : World counter
w5 = record { pool = p4; sem = 1; threads = closing 0 ∷ []; next = 1 }

abbrev w6 : World counter
w6 = record w5 { threads = leaving ∷ [] }

abbrev w7 : World counter
w7 = record w5 { sem = 0; threads = [] }

drained : Reach counter 10 w7
unfolding close_pool give_back new_pool
drained =
    next_step
      (next_step
        (next_step (next_step one_lease (shuts w3))
          (moves w4 [] [] (leased 0) (closing 0) p4 1 refl (gives p4 1 0 true 5)))
        (moves w5 [] [] (closing 0) leaving p4 1 refl (closes p4 1 0)))
      (leaves w6 [] [] refl)

closed_in-drained_example : closed_in counter drained 0 ≡ 1
closed_in-drained_example = Ledger.closed_in-drained counter drained 0 refl refl (omega arith)

abbrev one_free : Pool
one_free = record {
  idle_timeout = 10;
  free = record { conn = 4; idle_since = 3 } ∷ [];
  closed = false;
}
