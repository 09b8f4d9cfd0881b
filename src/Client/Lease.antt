-- ===== src/Client/Lease.antt =====
-- fetchOnce gives its connection back: to the pool after a good fetch, and never after a failed one.
use tradingview_go.Common.{
  inl, inr, ◌<◌, ℕ, ◌≤◌, ◌≡◌, refl, ◌∙◌, true, false, Option, none, some, List, [], ◌∷◌, ◌++◌,
  arith,
}
use tradingview_go.Text.{Bytes}
use tradingview_go.Types.{Candle}
use tradingview_go.Errors.{Result-cases, Error, Result, ok, err}
use tradingview_go.Pool.{Pool, PooledConn, give_back}
use tradingview_go.Pool.Sections.{count_free, take_free-Taken}
use tradingview_go.Client.{acquire, fetch_once}

acquire-count :
    (waited : Option Bytes) (dialed : Result ℕ) (p : Pool) (c : ℕ)
    → (count_free c (acquire waited dialed p).1.free ≤ count_free c p.free)
      × ((acquire waited dialed p).1.closed ≡ p.closed)
unfolding acquire
acquire-count (some cause) dialed p c = (omega arith, refl)
acquire-count none dialed p c =
    let t = take_free-Taken p in (ground (arith, t.counted c), ground (arith, t.same_closed))

discarded : (p : Pool) (d now : ℕ) → (give_back p d false now).0 ≡ p
unfolding give_back
discarded p d now = ground arith

kept : (p : Pool) (d now : ℕ) → p.closed ≡ false → 0 < count_free d (give_back p d true now).0.free
unfolding give_back count_free
kept p d now opened = ground (arith, there p.free)
  where
    there :
        (l : List PooledConn) → 0 < count_free d (l ++ record { conn = d; idle_since = now } ∷ [])
    there [] = ground arith
    there (x ∷ l) = omega (arith, there l)

module _ {F : Type 0} (waited : Option Bytes) (dialed : Result ℕ)
    (series : ℕ → Result (List (Candle F))) (now : ℕ) (p : Pool) where
  -- A fetchOnce that fails adds no connection to the free ones: a broken one is never reused.
  pub fetch_once-err :
      (c : ℕ) {e : Error}
      → (fetch_once waited dialed series now p).0 ≡ err e
      → count_free c (fetch_once waited dialed series now p).1.free ≤ count_free c p.free
  unfolding fetch_once
  fetch_once-err c {e} h =
      let q = (acquire waited dialed p).1 in
      let less = (acquire-count waited dialed p c).0 in
      elim (Result-cases (acquire waited dialed p).0) [
        | inr (x, at) ↦ ground (arith, less)
        | inl (d, at) ↦ elim (Result-cases (series d)) [
          | inl (cs, got) ↦ absurd (ground arith)
          | inr (x, failed) ↦ ground (arith, less, discarded q d now)
        ]
      ]

  -- A fetchOnce on an open pool that succeeds has run its fetch on a connection that is free
  -- afterwards.
  pub fetch_once-ok :
      {cs : List (Candle F)}
      → p.closed ≡ false
      → (fetch_once waited dialed series now p).0 ≡ ok cs
      → (c : ℕ) × (series c ≡ ok cs)
        × (0 < count_free c (fetch_once waited dialed series now p).1.free)
  unfolding fetch_once
  fetch_once-ok {cs} opened h =
      let q = (acquire waited dialed p).1 in
      elim (Result-cases (acquire waited dialed p).0) [
        | inr (x, at) ↦ absurd (ground arith)
        | inl (d, at) ↦ elim (Result-cases (series d)) [
          | inr (x, failed) ↦ absurd (ground arith)
          | inl (got, e) ↦ (
            d,
            ground arith,
            ground (arith, kept q d now ((acquire-count waited dialed p d).1 ∙ opened)),
          )
        ]
      ]
