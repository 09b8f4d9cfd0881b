-- ===== src/Cache/Reads.antt =====
-- What a later get returns after a put.
use tradingview_go.Common.{
  ℕ, suc, ◌+◌, ◌-◌, ◌≤◌, ◌<◌, ◌≡◌, ◌≢◌, refl, sym, ap, ◌∙◌, ◌⊎◌, inl, inr, false, none, some, List,
  [], ◌∷◌, arith, ltb, if◌then◌else◌, length, take, ℤ, pos, leb_ℤ, pos_part, take_of_length-le,
  length-map,
}
use tradingview_go.Text.{Bytes, beq_iff}
use tradingview_go.Types.{ChartData}
use tradingview_go.Cache.{Cache, clone, get, put}
use tradingview_go.Cache.Spec.{item, Item, items, item_find, item_remove, spec_get, spec_put}
use tradingview_go.Cache.Refine.{IsValid, get-Step, put-Step}

module _ {F : Type 0} where
  item_find-item_remove_ne :
      (k j : Bytes) (l : List (Item F)) → j ≢ k → item_find j (item_remove k l) ≡ item_find j l
  unfolding item_find item_remove
  item_find-item_remove_ne k j [] h = refl
  item_find-item_remove_ne k j (e ∷ l) h =
      ground (arith, item_find-item_remove_ne k j l h, beq_iff e.key k, beq_iff e.key j)

  length-item_remove : (k : Bytes) (l : List (Item F)) → length (item_remove k l) ≤ length l
  unfolding item_remove
  length-item_remove k [] = omega arith
  length-item_remove k (e ∷ l) = ground (arith, length-item_remove k l)

  length-item_remove_found :
      (k : Bytes) (l : List (Item F))
      → item_find k l ≢ none
      → suc (length (item_remove k l)) ≡ length l
  unfolding item_find item_remove
  length-item_remove_found k [] h = absurd (h refl)
  length-item_remove_found k (e ∷ l) h = ground (arith, length-item_remove_found k l)

  -- The answer of a get depends on the key's entry alone.
  spec_get-find :
      (l l' : List (Item F)) (k : Bytes) (now : ℕ)
      → item_find k l ≡ item_find k l'
      → (spec_get l k now).1 ≡ (spec_get l' k now).1
  unfolding spec_get
  spec_get-find l l' k now h = ground arith

  -- The entry of `k` is there, or there is room for one more.
  abbrev pub HasRoom : Cache F → Bytes → Type 0
  HasRoom c k = (item_find k (items c) ≢ none) ⊎ (length c.ll < c.max)

  module _ (c : Cache F) (v : IsValid c) (k : Bytes) (d : ChartData F) (ttl : ℤ) (now : ℕ)
      (lasts : leb_ℤ ttl (pos 0) ≡ false) where
    stored : Item F
    stored = record { key = k; chart = d; expires_at = now + pos_part ttl }

    find_stored_ne :
        (j : Bytes)
        → j ≢ k
        → item_find j (stored ∷ item_remove k (items c)) ≡ item_find j (item_remove k (items c))
    unfolding item_find stored
    find_stored_ne j other = ground (arith, beq_iff k j)

    items-put : items (put c k (some d) ttl now) ≡ take c.max (stored ∷ item_remove k (items c))
    unfolding spec_put stored
    items-put = (put-Step c k (some d) ttl now v).refined ∙ ground arith

    get-spec :
        (j : Bytes) (later : ℕ)
        → (get (put c k (some d) ttl now) j later).1
          ≡ (spec_get (items (put c k (some d) ttl now)) j later).1
    get-spec j later =
        (get-Step (put c k (some d) ttl now) j later (put-Step c k (some d) ttl now v).valid).1

    find-put : 0 < c.max → item_find k (items (put c k (some d) ttl now)) ≡ some stored
    unfolding item_find stored
    find-put room =
        let e : c.max ≡ suc (c.max - 1) = omega arith in
        rw (items-put, e) (ground (arith, beq_iff k k))

    read_stored :
        (l : List (Item F)) (later : ℕ)
        → item_find k l ≡ some stored
        → (spec_get l k later).1 ≡ (if ltb (now + pos_part ttl) later then none else some (clone d))
    unfolding spec_get stored
    read_stored l later found = ground arith

    -- Until the entry's time is over, a get of the key that was put last returns its value, marked
    -- as cached; after that it returns nothing. The size is positive and the TTL too.
    pub get-put :
        (later : ℕ)
        → 0 < c.max
        → (get (put c k (some d) ttl now) k later).1
          ≡ (if ltb (now + pos_part ttl) later then none else some (clone d))
    get-put later room =
        get-spec k later ∙ read_stored (items (put c k (some d) ttl now)) later (find-put room)

    find-put_ne :
        (j : Bytes)
        → j ≢ k
        → HasRoom c k
        → item_find j (items (put c k (some d) ttl now)) ≡ item_find j (items c)
    find-put_ne j other room =
        let l = stored ∷ item_remove k (items c) in
        let fits : length l ≤ c.max = fit room in
        ap (item_find j) (items-put ∙ take_of_length-le c.max l fits) ∙ skip
      where
        fit : HasRoom c k → suc (length (item_remove k (items c))) ≤ c.max
        fit (inl found) =
            omega
              (arith, length-item_remove_found k (items c) found, length-map item c.ll, v.bounded)
        fit (inr room) = omega (arith, length-item_remove k (items c), length-map item c.ll)

        skip : item_find j (stored ∷ item_remove k (items c)) ≡ item_find j (items c)
        skip = find_stored_ne j other ∙ item_find-item_remove_ne k j (items c) other

    -- A put leaves what a get of another key returns, if the cache has room for the put. The TTL is
    -- positive.
    pub get-put_ne :
        (j : Bytes) (later : ℕ)
        → j ≢ k
        → HasRoom c k
        → (get (put c k (some d) ttl now) j later).1 ≡ (get c j later).1
    get-put_ne j later other room =
        get-spec j later
        ∙ (spec_get-find (items (put c k (some d) ttl now)) (items c) j later
              (find-put_ne j other room)
            ∙ sym (get-Step c j later v).1)
