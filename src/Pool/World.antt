-- ===== src/Pool/World.antt =====
-- The pool among its goroutines: acquire, release, the reaper and close as interleaved steps. A step
-- is one section under the mutex, or one operation of the semaphore or the network.
-- golang.org/x/sync/semaphore is a parameter.
use tradingview_go.Common.{
  ℕ, suc, ◌≤◌, ◌<◌, ◌≡◌, Bool, true, false, Option, some, List, [], ◌∷◌, ◌++◌,
}
use tradingview_go.Pool.{
  Pool, Acquired, pool_closed, must_dial, reuse, new_pool, take_free, give_back, reap_idle,
  close_pool,
}

-- semaphore.Weighted with weights of one: `try` is an Acquire that does not have to wait.
pub record Semaphore (size : ℕ) : Type 1 where
  pub State : Type 0
  pub start : State
  pub try : State → Option State
  pub give : State → State
  -- How many acquisitions are outstanding.
  pub held : State → ℕ
  pub held-start : held start ≡ 0
  pub held-try :
      (s : State) {s' : State} → try s ≡ some s' → (held s' ≡ suc (held s)) × (held s' ≤ size)
  pub held-give : (s : State) → 0 < held s → suc (held (give s)) ≡ held s

-- Where a goroutine that holds a slot stands: in acquire before the lock or in dial, in a fetch, in
-- release behind the lock, or before the semaphore's Release.
pub data Phase : Type 0 where
  choosing dialing leaving : Phase
  leased closing : ℕ → Phase

-- What acquire does behind the lock.
abbrev pub after_take : Acquired → Phase
after_take pool_closed = leaving
after_take must_dial = dialing
after_take (reuse c) = leased c

-- What release does behind the lock.
abbrev pub after_give : ℕ → Bool → Phase
after_give c true = closing c
after_give c false = leaving

module _ {size : ℕ} (S : Semaphore size) where
  open S use {State, start, try, give}

  -- `next` is the pointer of the next connection that dial makes.
  pub record World : Type 0 where
    pub pool : Pool
    pub sem : State
    pub threads : List Phase
    pub next : ℕ

  unfoldable pub new_world : ℕ → World
  new_world idle_timeout = record {
    pool = new_pool idle_timeout;
    sem = start;
    threads = [];
    next = 0;
  }

  -- A goroutine's step from a phase to the next, over the pool and the next pointer.
  pub data Move : Pool → ℕ → Phase → Pool → ℕ → Phase → Type 0 where
    takes : (p : Pool) (n : ℕ) → Move p n choosing (take_free p).1 n (after_take (take_free p).0)
    dials : (p : Pool) (n : ℕ) → Move p n dialing p (suc n) (leased n)
    dial_fails : (p : Pool) (n : ℕ) → Move p n dialing p n leaving
    gives :
        (p : Pool) (n c : ℕ) (healthy : Bool) (now : ℕ)
        → Move p n
            (leased c)
            (give_back p c healthy now).0
            n
            (after_give c (give_back p c healthy now).1)
    closes : (p : Pool) (n c : ℕ) → Move p n (closing c) p n leaving

  pub data Step : World → World → Type 0 where
    enters :
        (w : World) (s : State)
        → try w.sem ≡ some s
        → Step w (record w { sem = s; threads = choosing ∷ w.threads })
    moves :
        (w : World) (xs ys : List Phase) (a b : Phase) (p : Pool) (n : ℕ)
        → w.threads ≡ xs ++ a ∷ ys
        → Move w.pool w.next a p n b
        → Step w (record w { pool = p; next = n; threads = xs ++ b ∷ ys })
    leaves :
        (w : World) (xs ys : List Phase)
        → w.threads ≡ xs ++ leaving ∷ ys
        → Step w (record w { sem = give w.sem; threads = xs ++ ys })
    reaps : (w : World) (now : ℕ) → Step w (record w { pool = (reap_idle w.pool now).0 })
    shuts : (w : World) → Step w (record w { pool = (close_pool w.pool).0 })

  -- What can come of a new pool.
  pub data Reach (idle_timeout : ℕ) : World → Type 0 where
    here : Reach idle_timeout (new_world idle_timeout)
    next_step : {w w' : World} → Reach idle_timeout w → Step w w' → Reach idle_timeout w'
