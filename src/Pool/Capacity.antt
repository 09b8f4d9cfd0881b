-- ===== src/Pool/Capacity.antt =====
-- The pool keeps no more connections than its size, and none once it is closed.
use tradingview_go.Common.{
  ℕ, suc, ◌+◌, ◌≤◌, ◌≡◌, refl, sym, ap, ◌∙◌, true, List, [], ◌∷◌, ◌++◌, arith, length,
  length-append, max,
}
use tradingview_go.Pool.{Pool, new_pool, reap_idle, close_pool}
use tradingview_go.Pool.World.{
  Semaphore, Phase, choosing, dialing, leaving, leased, closing, World, new_world, Move, takes,
  dials, dial_fails, gives, closes, Step, enters, moves, leaves, reaps, shuts, Reach, here,
  next_step,
}
use tradingview_go.Pool.Sections.{
  reap_idle-closed, busy, take_free-Taken, give_back-Given, reap_idle-Shrunk, close_pool-Shrunk,
}

-- The goroutines that dial or fetch.
abbrev pub count_busy : List Phase → ℕ
count_busy [] = 0
count_busy (a ∷ l) = busy a + count_busy l

count_busy-append : (xs ys : List Phase) → count_busy (xs ++ ys) ≡ count_busy xs + count_busy ys
count_busy-append [] ys = omega arith
count_busy-append (x ∷ xs) ys = omega (arith, count_busy-append xs ys)

count_busy-le : (xs : List Phase) → count_busy xs ≤ length xs
count_busy-le [] = omega arith
count_busy-le (choosing ∷ xs) = omega (arith, count_busy-le xs)
count_busy-le (dialing ∷ xs) = omega (arith, count_busy-le xs)
count_busy-le (leaving ∷ xs) = omega (arith, count_busy-le xs)
count_busy-le (leased c ∷ xs) = omega (arith, count_busy-le xs)
count_busy-le (closing c ∷ xs) = omega (arith, count_busy-le xs)

module _ {size : ℕ} (S : Semaphore size) where
  open S use {held, held-start, held-try, held-give}

  pub record Bounded (w : World S) : Type 0 where
    pub slots : held w.sem ≡ length w.threads
    pub within : length w.threads ≤ size
    pub conns : count_busy w.threads + length w.pool.free ≤ size
    pub emptied : w.pool.closed ≡ true → w.pool.free ≡ []

  -- A goroutine's step adds a connection only where no other was free.
  Move-busy :
      {p p' : Pool} {n n' : ℕ} {a b : Phase}
      → Move S p n a p' n' b
      → (busy b + length p'.free ≤ max 1 (busy a + length p.free))
        × (p'.closed ≡ p.closed)
        × (p.closed ≡ true → p'.free ≡ p.free)
  Move-busy (takes p n) = (
    omega (arith, (take_free-Taken p).dials_when_empty),
    (take_free-Taken p).same_closed,
    λ h. ((take_free-Taken p).refused h).1,
  )
  Move-busy (dials p n) = (omega arith, refl, λ h. refl)
  Move-busy (dial_fails p n) = (omega arith, refl, λ h. refl)
  Move-busy (gives p n d healthy now) =
      let g = give_back-Given p d healthy now in
      (omega (arith, g.no_longer_busy), g.same_closed, λ h. (g.refused h).1)
  Move-busy (closes p n d) = (omega arith, refl, λ h. refl)

  length-swap : (xs ys : List Phase) (a b : Phase) → length (xs ++ b ∷ ys) ≡ length (xs ++ a ∷ ys)
  length-swap xs ys a b = omega (arith, length-append xs (a ∷ ys), length-append xs (b ∷ ys))

  moves-Bounded :
      (w : World S) (xs ys : List Phase) (a b : Phase) (p : Pool) (n : ℕ)
      → w.threads ≡ xs ++ a ∷ ys
      → Move S w.pool w.next a p n b
      → Bounded w
      → Bounded (record w { pool = p; next = n; threads = xs ++ b ∷ ys })
  moves-Bounded w xs ys a b p n e m h =
      let (less, same, kept) = Move-busy m in
      record {
        slots = omega (arith, h.slots, ap length e, length-swap xs ys a b);
        within = omega (arith, h.within, ap length e, length-swap xs ys a b);
        conns = omega (
          arith,
          less,
          h.conns,
          h.within,
          ap count_busy e,
          ap length e,
          count_busy-append xs (a ∷ ys),
          count_busy-append xs (b ∷ ys),
          length-append xs (a ∷ ys),
          count_busy-le xs,
          count_busy-le ys,
        );
        emptied = λ c. kept (sym same ∙ c) ∙ h.emptied (sym same ∙ c);
      }

  leaves-Bounded :
      (w : World S) (xs ys : List Phase)
      → w.threads ≡ xs ++ leaving ∷ ys
      → Bounded w
      → Bounded (record w { sem = S.give w.sem; threads = xs ++ ys })
  leaves-Bounded w xs ys e h =
      let shorter : suc (length (xs ++ ys)) ≡ length w.threads =
        omega (arith, ap length e, length-append xs (leaving ∷ ys), length-append xs ys) in
      let fewer : count_busy (xs ++ ys) ≡ count_busy w.threads =
        omega
          (arith, ap count_busy e, count_busy-append xs (leaving ∷ ys), count_busy-append xs ys) in
      record {
        slots = omega (arith, held-give w.sem (omega (arith, h.slots, shorter)), h.slots, shorter);
        within = omega (arith, h.within, shorter);
        conns = omega (arith, h.conns, fewer);
        emptied = h.emptied;
      }

  nil_of_length : {A : Type 0} (l : List A) → length l ≤ 0 → l ≡ []
  nil_of_length [] h = refl
  nil_of_length (x ∷ l) h = absurd (omega arith)

  close_pool_empties :
      (p : Pool)
      → (close_pool p).0.closed ≡ true
      → (p.closed ≡ true → p.free ≡ [])
      → (close_pool p).0.free ≡ []
  unfolding close_pool
  close_pool_empties p c h = ground arith

  Step-Bounded : {w w' : World S} → Step S w w' → Bounded w → Bounded w'
  Step-Bounded (enters w s e) h =
      let (up, fits) = held-try w.sem e in
      record {
        slots = omega (arith, up, h.slots);
        within = omega (arith, up, fits, h.slots);
        conns = omega (arith, h.conns);
        emptied = h.emptied;
      }
  Step-Bounded (moves w xs ys a b p n e m) h = moves-Bounded w xs ys a b p n e m h
  Step-Bounded (leaves w xs ys e) h = leaves-Bounded w xs ys e h
  Step-Bounded (reaps w now) h = record {
    slots = h.slots;
    within = h.within;
    conns = omega (arith, h.conns, (reap_idle-Shrunk w.pool now).shorter);
    emptied = λ c. nil_of_length (reap_idle w.pool now).0.free (
        omega
          (arith, (reap_idle-Shrunk w.pool now).shorter, ap length (h.emptied (reap_closed c))));
  }
    where
      reap_closed : (reap_idle w.pool now).0.closed ≡ true → w.pool.closed ≡ true
      reap_closed c = sym (reap_idle-closed w.pool now) ∙ c
  Step-Bounded (shuts w) h = record {
    slots = h.slots;
    within = h.within;
    conns = omega (arith, h.conns, (close_pool-Shrunk w.pool).shorter);
    emptied = λ c. close_pool_empties w.pool c h.emptied;
  }

  Reach-Bounded : {idle_timeout : ℕ} {w : World S} → Reach S idle_timeout w → Bounded w
  unfolding new_world new_pool
  Reach-Bounded here = record {
    slots = held-start;
    within = omega arith;
    conns = omega arith;
    emptied = λ c. refl;
  }
  Reach-Bounded (next_step r s) = Step-Bounded s (Reach-Bounded r)

  -- However the goroutines interleave, the connections that are dialed, fetched on or free are at
  -- most as many as the pool's size, and so are the goroutines that hold a slot; each slot belongs
  -- to one of these goroutines.
  pub Reach-bounds :
      {idle_timeout : ℕ} {w : World S}
      → Reach S idle_timeout w
      → (count_busy w.threads + length w.pool.free ≤ size)
        × (length w.threads ≤ size)
        × (held w.sem ≡ length w.threads)
  Reach-bounds r = let h = Reach-Bounded r in (h.conns, h.within, h.slots)

  -- A closed pool has no free connection, also when connections come back after the close.
  pub closed-free :
      {idle_timeout : ℕ} {w : World S}
      → Reach S idle_timeout w
      → w.pool.closed ≡ true
      → w.pool.free ≡ []
  closed-free r = (Reach-Bounded r).emptied
