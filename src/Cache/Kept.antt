-- ===== src/Cache/Kept.antt =====
-- A property of entries that each put gives its entry holds of every entry, and of what a get returns.
use mathlib.Core.Path.{subst}
use native.Mathlib.Decide.{dec_lt}
use tradingview_go.Common.{
  ℕ, zero, suc, ◌+◌, ◌≤◌, ◌≡◌, refl, sym, ap, ◌∙◌, inl, inr, Option, none, some, List, [], ◌∷◌,
  arith, take, ℤ, pos, leb_ℤ, pos_part, All, Bool-cases, Option-cases,
}
use tradingview_go.Text.{Bytes, beq, beq_iff}
use tradingview_go.Types.{ChartData}
use tradingview_go.Cache.{Cache, clone, get, put, new_cache}
use tradingview_go.Cache.Spec.{Item, items, item_find, item_remove, spec_get, spec_put}
use tradingview_go.Cache.Refine.{IsValid, new_cache-IsValid, get-Step, put-Step}

module _ {F : Type 0} (P : Item F → Type 0) where
  item_remove-All : (k : Bytes) (l : List (Item F)) → All P l → All P (item_remove k l)
  unfolding item_remove
  item_remove-All k [] h = tt
  item_remove-All k (e ∷ l) h = ground (arith, item_remove-All k l h.1)

  take-All : (n : ℕ) (l : List (Item F)) → All P l → All P (take n l)
  take-All zero l h = tt
  take-All (suc n) [] h = tt
  take-All (suc n) (e ∷ l) h = (h.0, take-All n l h.1)

  item_find-All :
      (k : Bytes) (l : List (Item F)) {e : Item F}
      → All P l
      → item_find k l ≡ some e
      → P e × (e.key ≡ k)
  unfolding item_find
  item_find-All k [] h found = absurd (ground arith)
  item_find-All k (x ∷ l) {e} h found = elim (Bool-cases (beq x.key k)) [
    | inl same ↦ let is : x ≡ e = ground arith in (subst P is h.0, ground (arith, beq_iff x.key k))
    | inr other ↦ item_find-All k l {e = e} h.1 (ground arith)
  ]

  -- What a get leaves, and where its answer comes from.
  Read : Bytes → ℕ → List (Item F) × Option (ChartData F) → Type 0
  Read k now (l, none) = All P l
  Read k now (l, some d) =
      All P l × ((e : Item F) × P e × (e.key ≡ k) × (now ≤ e.expires_at) × (d ≡ clone e.chart))

  spec_get-Read :
      (l : List (Item F)) (k : Bytes) (now : ℕ) → All P l → Read k now (spec_get l k now)
  unfolding spec_get Read
  spec_get-Read l k now h = elim (Option-cases (item_find k l)) [
    | inl absent ↦
        let spec : spec_get l k now ≡ (l, none) = ground arith in subst (Read k now) (sym spec) h
    | inr (e, found) ↦ elim (dec_lt e.expires_at now) [
      | yes late ↦
          let spec : spec_get l k now ≡ (item_remove k l, none) = ground arith in
          subst (Read k now) (sym spec) (item_remove-All k l h)
      | no live ↦
          let spec : spec_get l k now ≡ (e ∷ item_remove k l, some (clone e.chart)) =
            ground arith in
          let (holds, same) = item_find-All k l {e = e} h found in
          subst (Read k now) (sym spec)
            ((holds, item_remove-All k l h), (e, holds, same, omega arith, refl))
    ]
  ]

  Read-All :
      (k : Bytes) (now : ℕ) (r : List (Item F) × Option (ChartData F)) → Read k now r → All P r.0
  unfolding Read
  Read-All k now (l, none) h = h
  Read-All k now (l, some d) h = h.0

  spec_put-All :
      (max : ℕ) (l : List (Item F)) (k : Bytes) (d : ChartData F) (ttl : ℤ) (now : ℕ)
      → All P l
      → P (record { key = k; chart = d; expires_at = now + pos_part ttl })
      → All P (spec_put max l k (some d) ttl now)
  unfolding spec_put
  spec_put-All max l k d ttl now h new = elim (Bool-cases (leb_ℤ ttl (pos 0))) [
    | inl over ↦ subst (All P) (sym (ground arith)) h
    | inr lasts ↦
        let e : Item F = record { key = k; chart = d; expires_at = now + pos_part ttl } in
        let spec : spec_put max l k (some d) ttl now ≡ take max (e ∷ item_remove k l) =
          ground arith in
        subst (All P) (sym spec) (take-All max (e ∷ item_remove k l) (new, item_remove-All k l h))
  ]

  -- A valid cache whose entries all have the property.
  pub record Kept (c : Cache F) : Type 0 where
    pub valid : IsValid c
    pub all : All P (items c)

  pub get-Kept : (c : Cache F) (k : Bytes) (now : ℕ) → Kept c → Kept (get c k now).0
  get-Kept c k now h =
      let (s, _) = get-Step c k now h.valid in
      record {
        valid = s.valid;
        all =
            subst (All P) (sym s.refined)
              (Read-All k now (spec_get (items c) k now) (spec_get-Read (items c) k now h.all));
      }

  -- What a get returns is a live entry of the key.
  pub get-item :
      (c : Cache F) (k : Bytes) (now : ℕ) {d : ChartData F}
      → Kept c
      → (get c k now).1 ≡ some d
      → (e : Item F) × P e × (e.key ≡ k) × (now ≤ e.expires_at) × (d ≡ clone e.chart)
  unfolding Read
  get-item c k now {d} h hit =
      let (_, same) = get-Step c k now h.valid in
      let spec : spec_get (items c) k now ≡ ((spec_get (items c) k now).0, some d) =
        ap (λ o. ((spec_get (items c) k now).0, o)) (sym same ∙ hit) in
      (subst (Read k now) spec (spec_get-Read (items c) k now h.all)).1

  pub put-Kept :
      (c : Cache F) (k : Bytes) (d : ChartData F) (ttl : ℤ) (now : ℕ)
      → Kept c
      → P (record { key = k; chart = d; expires_at = now + pos_part ttl })
      → Kept (put c k (some d) ttl now)
  put-Kept c k d ttl now h new =
      let s = put-Step c k (some d) ttl now h.valid in
      record {
        valid = s.valid;
        all = subst (All P) (sym s.refined) (spec_put-All c.max (items c) k d ttl now h.all new);
      }

  pub new_cache-Kept : (size : ℕ) → Kept (new_cache size)
  unfolding new_cache
  new_cache-Kept size = record { valid = new_cache-IsValid size; all = tt }
