-- ===== src/Pool/Exclusive.antt =====
-- A connection has one user at a time: "the pool guarantees a single fetch at a time per conn".
use tradingview_go.Common.{
  ltb, ℕ, ◌+◌, ◌≤◌, ◌≡◌, refl, ap, List, [], ◌∷◌, ◌++◌, arith, if◌then◌else◌,
}
use tradingview_go.Pool.{Pool, new_pool}
use tradingview_go.Pool.World.{
  Semaphore, Phase, leaving, World, new_world, Move, takes, dials, dial_fails, gives, closes, Step,
  enters, moves, leaves, reaps, shuts, Reach, here, next_step,
}
use tradingview_go.Pool.Sections.{
  count_free, count_phase, take_free-Taken, give_back-Given, reap_idle-Shrunk, close_pool-Shrunk,
}

-- How many goroutines have the connection `c`.
abbrev pub count_threads : ℕ → List Phase → ℕ
count_threads c [] = 0
count_threads c (a ∷ l) = count_phase c a + count_threads c l

pub count_threads-append :
    (c : ℕ) (xs ys : List Phase)
    → count_threads c (xs ++ ys) ≡ count_threads c xs + count_threads c ys
count_threads-append c [] ys = omega arith
count_threads-append c (x ∷ xs) ys = omega (arith, count_threads-append c xs ys)

module _ {size : ℕ} (S : Semaphore size) where
  -- The goroutines and free entries that have the connection `c`.
  abbrev pub users : ℕ → World S → ℕ
  users c w = count_threads c w.threads + count_free c w.pool.free

  pub record Exclusive (w : World S) : Type 0 where
    pub single : (c : ℕ) → users c w ≤ 1
    pub unmade : (c : ℕ) → w.next ≤ c → users c w ≡ 0

  -- A goroutine's step brings in no connection but a new one.
  Move-count :
      {p p' : Pool} {n n' : ℕ} {a b : Phase}
      → Move S p n a p' n' b
      → (c : ℕ)
      → (n ≤ n')
        × (count_phase c b + count_free c p'.free
            ≤ count_phase c a
              + count_free c p.free
              + (if ltb c n then 0 else if ltb c n' then 1 else 0))
  Move-count (takes p n) c = (omega arith, omega (arith, (take_free-Taken p).counted c))
  Move-count (dials p n) c = (omega arith, ground arith)
  Move-count (dial_fails p n) c = (omega arith, omega arith)
  Move-count (gives p n d healthy now) c =
      (omega arith, omega (arith, (give_back-Given p d healthy now).counted c))
  Move-count (closes p n d) c = (omega arith, ground arith)

  Step-Exclusive : {w w' : World S} → Step S w w' → Exclusive w → Exclusive w'
  Step-Exclusive (enters w s e) h = record {
    single = λ c. omega (arith, h.single c);
    unmade = λ c lt. omega (arith, h.unmade c lt);
  }
  Step-Exclusive (moves w xs ys a b p n e m) h = record {
    single = λ c. ground (arith, moved c, h.single c, h.unmade c);
    unmade = λ c lt. ground (arith, moved c, h.unmade c);
  }
    where
      moved :
          (c : ℕ)
          → (w.next ≤ n)
            × (count_threads c (xs ++ b ∷ ys) + count_free c p.free
                ≤ users c w + (if ltb c w.next then 0 else if ltb c n then 1 else 0))
      moved c =
          let (up, less) = Move-count m c in
          (
            up,
            omega (
              arith,
              less,
              ap (count_threads c) e,
              count_threads-append c xs (a ∷ ys),
              count_threads-append c xs (b ∷ ys),
            ),
          )
  Step-Exclusive (leaves w xs ys e) h = record {
    single = λ c. omega (arith, same c, h.single c);
    unmade = λ c lt. omega (arith, same c, h.unmade c lt);
  }
    where
      same : (c : ℕ) → count_threads c (xs ++ ys) ≡ count_threads c w.threads
      same c = omega (
        arith,
        ap (count_threads c) e,
        count_threads-append c xs (leaving ∷ ys),
        count_threads-append c xs ys,
      )
  Step-Exclusive (reaps w now) h = record {
    single = λ c. omega (arith, h.single c, (reap_idle-Shrunk w.pool now).counted c);
    unmade = λ c lt. omega (arith, h.unmade c lt, (reap_idle-Shrunk w.pool now).counted c);
  }
  Step-Exclusive (shuts w) h = record {
    single = λ c. omega (arith, h.single c, (close_pool-Shrunk w.pool).counted c);
    unmade = λ c lt. omega (arith, h.unmade c lt, (close_pool-Shrunk w.pool).counted c);
  }

  Reach-Exclusive : {idle_timeout : ℕ} {w : World S} → Reach S idle_timeout w → Exclusive w
  unfolding new_world new_pool count_free
  Reach-Exclusive here = record { single = λ c. omega arith; unmade = λ c lt. refl }
  Reach-Exclusive (next_step r s) = Step-Exclusive s (Reach-Exclusive r)

  -- However the goroutines interleave, a connection is with at most one goroutine or once among the
  -- free ones, never both: no two fetches use one connection at a time.
  pub users-le-one :
      {idle_timeout : ℕ} {w : World S} → Reach S idle_timeout w → (c : ℕ) → users c w ≤ 1
  users-le-one r c = (Reach-Exclusive r).single c
