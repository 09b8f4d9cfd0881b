-- ===== src/Client/History.antt =====
-- client.go as goroutines run it: the sections of Fetch and Close that change the client, in any order.
use tradingview_go.Common.{ℕ, ◌≡◌, ◌⊎◌, inl, inr, none, some, List, [], ◌∷◌, arith, Option-cases}
use tradingview_go.Cache.{get}
use tradingview_go.Client.{Client, Request, Env, close_client, key_of, fetch_checked, fetch_miss}
use tradingview_go.Client.Checks.{IsNormal}

-- A section of a goroutine: a Fetch reads the cache, a Fetch that missed it gets the network's answer
-- and puts it, or Close sets the flag.
pub data Section (F : Type 0) : Type 0 where
  looks : Request → ℕ → Section F
  answers : Request → Env F → Section F
  closes : Section F

module _ {F : Type 0} where
  unfoldable pub after_section : Client F → Section F → Client F
  after_section c (looks q now) = elim c.cache [
    | none ↦ c
    | some cache ↦ record c { cache = some (get cache (key_of q) now).0 }
  ]
  after_section c (answers q env) = (fetch_miss c q env).1
  after_section c closes = (close_client c).0

  unfoldable pub after : Client F → List (Section F) → Client F
  unfolding after_section
  after c [] = c
  after c (s ∷ l) = after (after_section c s) l

  -- The request of a section has passed the checks of Fetch.
  abbrev pub HasPassed : Section F → Type 0
  HasPassed (looks q now) = IsNormal q
  HasPassed (answers q env) = IsNormal q
  HasPassed closes = Unit

  -- A Fetch that has passed its checks is two of them, with nothing between, or the first alone.
  pub fetch_checked-after :
      (c : Client F) (q : Request) (env : Env F)
      → ((fetch_checked c q env).1 ≡ after c (looks q env.at_get ∷ []))
        ⊎ ((fetch_checked c q env).1 ≡ after c (looks q env.at_get ∷ answers q env ∷ []))
  unfolding fetch_checked after after_section
  fetch_checked-after c q env = elim (Option-cases c.cache) [
    | inl off ↦ inr (ground arith)
    | inr (cache, on) ↦ elim (Option-cases (get cache (key_of q) env.at_get).1) [
      | inl missed ↦ inr (ground arith)
      | inr (hit, found) ↦ inl (ground arith)
    ]
  ]
