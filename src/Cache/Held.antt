-- ===== src/Cache/Held.antt =====
-- How long an entry stays in the cache: each get or put of another key puts at most one more entry in
-- front of it.
use mathlib.Core.Path.{subst}
use native.Mathlib.Decide.{dec_lt}
use tradingview_go.Common.{
  ℕ, zero, suc, ◌+◌, ◌≤◌, ◌<◌, ◌≡◌, ◌≢◌, refl, sym, ◌∙◌, ◌⊎◌, inl, inr, false, some, List, [], ◌∷◌,
  arith, take, ℤ, pos, leb_ℤ, pos_part, Bool-cases, Option-cases,
}
use tradingview_go.Text.{Bytes, beq, beq_iff}
use tradingview_go.Types.{ChartData}
use tradingview_go.Cache.{Cache, clone, get, put}
use tradingview_go.Cache.Spec.{Item, items, item_find, item_remove, spec_get, spec_put}
use tradingview_go.Cache.Refine.{IsValid, get-Step, put-Step}

item_find-key :
    {F : Type 0} (k : Bytes) (l : List (Item F)) {e : Item F} → item_find k l ≡ some e → e.key ≡ k
unfolding item_find
item_find-key k [] h = absurd (ground arith)
item_find-key k (x ∷ l) {e} h = ground (arith, item_find-key k l {e = e}, beq_iff x.key k)

module _ {F : Type 0} (stored : Item F) where
  -- The entry is there, behind at most so many entries of other keys.
  abbrev pub Held : ℕ → List (Item F) → Type 0
  Held n [] = ⊥
  Held zero (x ∷ l) = x ≡ stored
  Held (suc n) (x ∷ l) = (x ≡ stored) ⊎ ((x.key ≢ stored.key) × Held n l)

  Held-here : (n : ℕ) (l : List (Item F)) → Held n (stored ∷ l)
  Held-here zero l = refl
  Held-here (suc n) l = inl refl

  Held-suc : (n : ℕ) (l : List (Item F)) → Held n l → Held (suc n) l
  Held-suc n [] h = h
  Held-suc zero (x ∷ l) h = inl h
  Held-suc (suc n) (x ∷ l) (inl h) = inl h
  Held-suc (suc n) (x ∷ l) (inr (other, h)) = inr (other, Held-suc n l h)

  item_find-Held : (n : ℕ) (l : List (Item F)) → Held n l → item_find stored.key l ≡ some stored
  unfolding item_find
  item_find-Held n [] h = absurd h
  item_find-Held zero (x ∷ l) h = rw h (ground (arith, beq_iff stored.key stored.key))
  item_find-Held (suc n) (x ∷ l) (inl h) = rw h (ground (arith, beq_iff stored.key stored.key))
  item_find-Held (suc n) (x ∷ l) (inr (other, h)) =
      ground (arith, beq_iff x.key stored.key, item_find-Held n l h)

  kept_apart : (j : Bytes) (x : Item F) → j ≢ stored.key → x ≡ stored → beq x.key j ≡ false
  kept_apart j x ne e = rw e (ground (arith, beq_iff stored.key j))

  item_remove-Held :
      (j : Bytes) (n : ℕ) (l : List (Item F)) → j ≢ stored.key → Held n l → Held n (item_remove j l)
  unfolding item_remove
  item_remove-Held j n [] ne h = absurd h
  item_remove-Held j zero (x ∷ l) ne h = rw (kept_apart j x ne h) h
  item_remove-Held j (suc n) (x ∷ l) ne (inl h) = rw (kept_apart j x ne h) (inl h)
  item_remove-Held j (suc n) (x ∷ l) ne (inr (other, h)) = elim (Bool-cases (beq x.key j)) [
    | inl same ↦ rw same (Held-suc n l h)
    | inr apart ↦ rw apart (inr (other, item_remove-Held j n l ne h))
  ]

  take-Held : (n max : ℕ) (l : List (Item F)) → n < max → Held n l → Held n (take max l)
  take-Held n zero l h there = absurd (omega arith)
  take-Held n (suc max) [] h there = there
  take-Held zero (suc max) (x ∷ l) h there = there
  take-Held (suc n) (suc max) (x ∷ l) h (inl there) = inl there
  take-Held (suc n) (suc max) (x ∷ l) h (inr (other, there)) =
      inr (other, take-Held n max l (omega arith) there)

  -- A get leaves the entry, if it is of another key or the entry's time is not over.
  spec_get-Held :
      (n : ℕ) (l : List (Item F)) (j : Bytes) (now : ℕ)
      → (j ≢ stored.key) ⊎ (now ≤ stored.expires_at)
      → Held n l
      → Held (suc n) (spec_get l j now).0
  unfolding spec_get
  spec_get-Held n l j now h there = elim (Option-cases (item_find j l)) [
    | inl absent ↦
        let spec : (spec_get l j now).0 ≡ l = ground arith in
        subst (Held (suc n)) (sym spec) (Held-suc n l there)
    | inr (e, found) ↦ elim (Bool-cases (beq j stored.key)) [
      | inl same ↦
          let key_is : j ≡ stored.key = (beq_iff j stored.key).0 same in
          let is : e ≡ stored = ground (arith, item_find-Held n l there) in
          let spec : (spec_get l j now).0 ≡ stored ∷ item_remove j l = ground arith in
          subst (Held (suc n)) (sym spec) (Held-here (suc n) (item_remove j l))
      | inr apart ↦
          let ne : j ≢ stored.key = λ k. ground (arith, beq_iff j stored.key) in
          let rest = item_remove-Held j n l ne there in
          elim (dec_lt e.expires_at now) [
            | yes late ↦
                let spec : (spec_get l j now).0 ≡ item_remove j l = ground arith in
                subst (Held (suc n)) (sym spec) (Held-suc n (item_remove j l) rest)
            | no live ↦
                let spec : (spec_get l j now).0 ≡ e ∷ item_remove j l = ground arith in
                let key_is : e.key ≡ j = item_find-key j l found in
                let other : e.key ≢ stored.key = λ k. ne (sym key_is ∙ k) in
                subst (Held (suc n)) (sym spec) (inr (other, rest))
          ]
    ]
  ]

  -- A put of another key leaves it too, if the cache has room for both.
  spec_put-Held :
      (n max : ℕ) (l : List (Item F)) (j : Bytes) (d : ChartData F) (ttl : ℤ) (now : ℕ)
      → suc n < max
      → j ≢ stored.key
      → Held n l
      → Held (suc n) (spec_put max l j (some d) ttl now)
  unfolding spec_put
  spec_put-Held n max l j d ttl now room ne there = elim (Bool-cases (leb_ℤ ttl (pos 0))) [
    | inl over ↦
        let spec : spec_put max l j (some d) ttl now ≡ l = ground arith in
        subst (Held (suc n)) (sym spec) (Held-suc n l there)
    | inr lasts ↦
        let e : Item F = record { key = j; chart = d; expires_at = now + pos_part ttl } in
        let spec : spec_put max l j (some d) ttl now ≡ take max (e ∷ item_remove j l) =
          ground arith in
        subst (Held (suc n)) (sym spec) (
          take-Held (suc n) max (e ∷ item_remove j l) room
            (inr (ne, item_remove-Held j n l ne there)))
  ]

  -- A valid cache of this size that holds the entry.
  pub record Holds (max n : ℕ) (c : Cache F) : Type 0 where
    pub valid : IsValid c
    pub size : c.max ≡ max
    pub held : Held n (items c)

  pub Holds-suc : (max n : ℕ) (c : Cache F) → Holds max n c → Holds max (suc n) c
  Holds-suc max n c there = record {
    valid = there.valid;
    size = there.size;
    held = Held-suc n (items c) there.held;
  }

  pub get-Holds :
      (max n : ℕ) (c : Cache F) (j : Bytes) (now : ℕ)
      → (j ≢ stored.key) ⊎ (now ≤ stored.expires_at)
      → Holds max n c
      → Holds max (suc n) (get c j now).0
  get-Holds max n c j now h there =
      let (s, _) = get-Step c j now there.valid in
      record {
        valid = s.valid;
        size = s.same_max ∙ there.size;
        held = subst (Held (suc n)) (sym s.refined) (spec_get-Held n (items c) j now h there.held);
      }

  pub put-Holds :
      (max n : ℕ) (c : Cache F) (j : Bytes) (d : ChartData F) (ttl : ℤ) (now : ℕ)
      → suc n < max
      → j ≢ stored.key
      → Holds max n c
      → Holds max (suc n) (put c j (some d) ttl now)
  put-Holds max n c j d ttl now room ne there =
      let s = put-Step c j (some d) ttl now there.valid in
      let room' : suc n < c.max = omega (arith, there.size, room) in
      record {
        valid = s.valid;
        size = s.same_max ∙ there.size;
        held =
            subst (Held (suc n)) (sym s.refined)
              (spec_put-Held n c.max (items c) j d ttl now room' ne there.held);
      }

  -- The entry answers a get of its key until its time is over.
  pub get-held :
      (max n : ℕ) (c : Cache F) (now : ℕ)
      → now ≤ stored.expires_at
      → Holds max n c
      → (get c stored.key now).1 ≡ some (clone stored.chart)
  unfolding spec_get
  get-held max n c now early there =
      let (_, same) = get-Step c stored.key now there.valid in
      let found = item_find-Held n (items c) there.held in
      let spec : (spec_get (items c) stored.key now).1 ≡ some (clone stored.chart) = ground arith in
      same ∙ spec

  -- The entry of a put that lasts.
  pub put-held :
      (c : Cache F) (d : ChartData F) (ttl : ℤ) (now : ℕ)
      → IsValid c
      → 0 < c.max
      → leb_ℤ ttl (pos 0) ≡ false
      → stored ≡ record { key = stored.key; chart = d; expires_at = now + pos_part ttl }
      → Holds c.max 0 (put c stored.key (some d) ttl now)
  unfolding spec_put
  put-held c d ttl now v room lasts is =
      let s = put-Step c stored.key (some d) ttl now v in
      let e : Item F = record { key = stored.key; chart = d; expires_at = now + pos_part ttl } in
      let spec : spec_put c.max (items c) stored.key (some d) ttl now
          ≡ take c.max (e ∷ item_remove stored.key (items c)) =
        ground arith in
      record {
        valid = s.valid;
        size = s.same_max;
        held =
            subst (Held 0) (sym (s.refined ∙ spec))
              (take-Held 0 c.max (e ∷ item_remove stored.key (items c)) room (sym is));
      }
