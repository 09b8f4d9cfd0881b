-- ===== src/Pool/Sections.antt =====
-- What each section under the mutex does to the free connections, counted.
use tradingview_go.Pool.World.{
  Phase, choosing, dialing, leaving, leased, closing, after_take, after_give,
}
use tradingview_go.Common.{
  max, ℕ, suc, ◌+◌, ◌≤◌, ◌≡◌, refl, Bool, true, none, some, List, [], ◌∷◌, ◌++◌, arith, length,
  ◌==◌, if◌then◌else◌, Option-cases, inl, inr, length-append,
}
use tradingview_go.Pool.{
  Pool, PooledConn, Acquired, pool_closed, split_last, take_free, give_back, reap_scan, reap_idle,
  close_pool,
}

-- One if the connection is `c`.
abbrev pub one : ℕ → ℕ → ℕ
one c d = if d == c then 1 else 0

-- How often the connection `c` is free.
unfoldable pub count_free : ℕ → List PooledConn → ℕ
count_free c [] = 0
count_free c (pc ∷ l) = one c pc.conn + count_free c l

count_free-append :
    (c : ℕ) (l : List PooledConn) (pc : PooledConn)
    → count_free c (l ++ pc ∷ []) ≡ count_free c l + one c pc.conn
unfolding count_free
count_free-append c [] pc = omega arith
count_free-append c (x ∷ l) pc = omega (arith, count_free-append c l pc)

split_last-none : (l : List PooledConn) → split_last l ≡ none → l ≡ []
unfolding split_last
split_last-none [] e = refl
split_last-none (x ∷ l) e = absurd (ground arith)

split_last-count :
    (c : ℕ) (l front : List PooledConn) (last : PooledConn)
    → split_last l ≡ some (front, last)
    → (count_free c l ≡ count_free c front + one c last.conn) × (length l ≡ suc (length front))
unfolding split_last count_free
split_last-count c [] front last e = absurd (ground arith)
split_last-count c (x ∷ l) front last e = elim (Option-cases (split_last l)) [
  | inl alone ↦ let nil : l ≡ [] = split_last-none l alone in ground arith
  | inr ((f, y), more) ↦ ground (arith, split_last-count c l f y more)
]

-- The connection that a goroutine in this phase has for itself.
abbrev pub count_phase : ℕ → Phase → ℕ
count_phase c choosing = 0
count_phase c dialing = 0
count_phase c leaving = 0
count_phase c (leased d) = one c d
count_phase c (closing d) = one c d

-- One for a goroutine that has, or is about to have, a connection that may come back.
abbrev pub busy : Phase → ℕ
busy choosing = 0
busy dialing = 1
busy leaving = 0
busy (leased d) = 1
busy (closing d) = 0

-- acquire hands out a free connection and keeps no copy; without a free one it dials, and a closed
-- pool gives nothing.
pub record Taken (p : Pool) (a : Acquired) (p' : Pool) : Type 0 where
  pub counted : (c : ℕ) → count_phase c (after_take a) + count_free c p'.free ≡ count_free c p.free
  pub dials_when_empty : busy (after_take a) + length p'.free ≤ max 1 (length p.free)
  pub same_closed : p'.closed ≡ p.closed
  pub refused : p.closed ≡ true → (a ≡ pool_closed) × (p'.free ≡ p.free)

pub take_free-Taken : (p : Pool) → Taken p (take_free p).0 (take_free p).1
unfolding take_free
take_free-Taken p = record {
  counted = λ c. take-count c;
  dials_when_empty = take-length;
  same_closed = ground arith;
  refused = λ h. ground arith;
}
  where
    take-count :
        (c : ℕ)
        → count_phase c (after_take (take_free p).0) + count_free c (take_free p).1.free
          ≡ count_free c p.free
    take-count c = elim (Option-cases (split_last p.free)) [
      | inl e ↦ ground arith
      | inr ((rest, pc), e) ↦ ground (arith, split_last-count c p.free rest pc e)
    ]

    take-length :
        busy (after_take (take_free p).0) + length (take_free p).1.free ≤ max 1 (length p.free)
    take-length = elim (Option-cases (split_last p.free)) [
      | inl e ↦ ground (arith, split_last-none p.free e)
      | inr ((rest, pc), e) ↦ ground (arith, split_last-count 0 p.free rest pc e)
    ]

-- release keeps a healthy connection in an open pool, and leaves any other to be closed.
pub record Given (p : Pool) (d : ℕ) (p' : Pool) (closes : Bool) : Type 0 where
  pub counted :
      (c : ℕ)
      → count_phase c (after_give d closes) + count_free c p'.free ≡ one c d + count_free c p.free
  pub no_longer_busy : busy (after_give d closes) + length p'.free ≤ suc (length p.free)
  pub same_closed : p'.closed ≡ p.closed
  pub refused : p.closed ≡ true → (closes ≡ true) × (p'.free ≡ p.free)

pub give_back-Given :
    (p : Pool) (d : ℕ) (healthy : Bool) (now : ℕ)
    → Given p d (give_back p d healthy now).0 (give_back p d healthy now).1
unfolding give_back
give_back-Given p d healthy now = record {
  counted = λ c. ground (arith, count_free-append c p.free (record { conn = d; idle_since = now }));
  no_longer_busy =
      ground (arith, length-append p.free (record { conn = d; idle_since = now } ∷ []));
  same_closed = ground arith;
  refused = λ h. ground arith;
}

reap_scan-count :
    (c timeout now : ℕ) (l : List PooledConn)
    → count_free c (reap_scan timeout now l).0 ≤ count_free c l
unfolding reap_scan count_free
reap_scan-count c timeout now [] = omega arith
reap_scan-count c timeout now (pc ∷ l) = ground (arith, reap_scan-count c timeout now l)

length-reap_scan :
    (timeout now : ℕ) (l : List PooledConn) → length (reap_scan timeout now l).0 ≤ length l
unfolding reap_scan
length-reap_scan timeout now [] = omega arith
length-reap_scan timeout now (pc ∷ l) = ground (arith, length-reap_scan timeout now l)

-- The reaper and close only take connections away; after close none is free.
pub record Shrunk (p p' : Pool) : Type 0 where
  pub counted : (c : ℕ) → count_free c p'.free ≤ count_free c p.free
  pub shorter : length p'.free ≤ length p.free
  pub stays_closed : p.closed ≡ true → p'.closed ≡ true

pub reap_idle-Shrunk : (p : Pool) (now : ℕ) → Shrunk p (reap_idle p now).0
unfolding reap_idle
reap_idle-Shrunk p now = record {
  counted = λ c. reap_scan-count c p.idle_timeout now p.free;
  shorter = length-reap_scan p.idle_timeout now p.free;
  stays_closed = λ h. h;
}

pub reap_idle-closed : (p : Pool) (now : ℕ) → (reap_idle p now).0.closed ≡ p.closed
unfolding reap_idle
reap_idle-closed p now = refl

pub close_pool-Shrunk : (p : Pool) → Shrunk p (close_pool p).0
unfolding close_pool count_free
close_pool-Shrunk p = record {
  counted = λ c. ground arith;
  shorter = ground arith;
  stays_closed = λ h. ground arith;
}
