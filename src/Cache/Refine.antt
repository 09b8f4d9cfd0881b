-- ===== src/Cache/Refine.antt =====
-- get and put on the linked list with its map do what the specification says, and keep the invariant
-- and the bound.
use mathlib.Core.Path.{subst}
use tradingview_go.Common.{
  ℕ, suc, ◌+◌, ◌≤◌, ◌≡◌, refl, sym, ap, ◌∙◌, inl, inr, true, false, Option, none, some, List, ◌∷◌,
  arith, length, take, map, Bool-cases, Option-cases, ℤ, pos, leb_ℤ, pos_part, length-map, take-map,
  take_of_length-le, length-take-le,
}
use native.Mathlib.Decide.{dec_lt}
use tradingview_go.Text.{Bytes}
use tradingview_go.Types.{ChartData}
use tradingview_go.Cache.{Element, Cache, clone, get, put, new_cache}
use tradingview_go.Cache.Elements.{
  find_key, remove_key, find_key-key, length-remove_key, length-remove_key-le, remove_key_absent,
}
use tradingview_go.Cache.Coherent.{
  Coherent, without-Coherent, front-Coherent, pushed, pushed-Coherent, evict-Evicted,
  new_cache-Coherent,
}
use tradingview_go.Cache.Keys.{get_absent, get_expired, get_live, put_found, put_absent, entry}
use tradingview_go.Cache.Spec.{
  Item, item, items, item_remove, spec_get, spec_put, item_find-map, item_remove-map,
}

module _ {F : Type 0} where
  pub record IsValid (c : Cache F) : Type 0 where
    pub coherent : Coherent c
    pub bounded : length c.ll ≤ c.max

  pub new_cache-IsValid : (size : ℕ) → IsValid (new_cache size)
  unfolding new_cache
  new_cache-IsValid size = record { coherent = new_cache-Coherent size; bounded = omega arith }

  -- A step that keeps the invariant and the bound, and does to the items what the specification says.
  pub record Step (c c' : Cache F) (l : List (Item F)) : Type 0 where
    pub valid : IsValid c'
    pub same_max : c'.max ≡ c.max
    pub refined : items c' ≡ l

  pub get-Step :
      (c : Cache F) (k : Bytes) (now : ℕ)
      → IsValid c
      → Step c (get c k now).0 (spec_get (items c) k now).0
        × ((get c k now).1 ≡ (spec_get (items c) k now).1)
  unfolding spec_get
  get-Step c k now v = elim (Option-cases (find_key k c.ll)) [
    | inl absent ↦
        let spec : spec_get (items c) k now ≡ (items c, none) =
          ground (arith, item_find-map k c.ll) in
        rw (get_absent c v.coherent k now absent, spec)
          (record { valid = v; same_max = refl; refined = refl }, refl)
    | inr (e, found) ↦ elim (dec_lt e.expires_at now) [
      | yes late ↦
          let spec : spec_get (items c) k now ≡ (item_remove k (items c), none) =
            ground (arith, item_find-map k c.ll) in
          rw (get_expired c v.coherent k now found late, spec)
            (
              record {
                valid = record {
                  coherent = without-Coherent k c v.coherent;
                  bounded = omega (arith, length-remove_key-le k c.ll, v.bounded);
                };
                same_max = refl;
                refined = sym (item_remove-map k c.ll);
              },
              refl,
            )
      | no live ↦
          let spec : spec_get (items c) k now
              ≡ (item e ∷ item_remove k (items c), some (clone e.chart)) =
            ground (arith, item_find-map k c.ll) in
          let same : e.key ≡ k = find_key-key k c.ll found in
          rw (get_live c v.coherent k now found (omega arith), spec)
            (
              record {
                valid = record {
                  coherent =
                      front-Coherent e e c v.coherent
                        (subst (λ j. find_key j c.ll ≡ some e) (sym same) found) refl;
                  bounded = rw same (omega (arith, length-remove_key k c.ll found, v.bounded));
                };
                same_max = refl;
                refined =
                    subst
                      (λ j.
                        item e ∷ map item (remove_key j c.ll) ≡ item e ∷ item_remove k (items c))
                      (sym same) (ap (λ l. item e ∷ l) (sym (item_remove-map k c.ll)));
              },
              refl,
            )
    ]
  ]

  put_new :
      (c : Cache F) (k : Bytes) (d : ChartData F) (ttl : ℤ) (now : ℕ)
      → IsValid c
      → leb_ℤ ttl (pos 0) ≡ false
      → find_key k c.ll ≡ none
      → Step c
          (put c k (some d) ttl now)
          (take c.max (item (entry k d (now + pos_part ttl) c.next_id) ∷ items c))
  put_new c k d ttl now v lasts absent =
      let e = entry k d (now + pos_part ttl) c.next_id in
      let r =
        evict-Evicted (suc (length c.ll)) (pushed e c) (pushed-Coherent e c v.coherent refl absent)
          (omega arith) in
      rw (put_absent c v.coherent k d ttl now lasts absent) (record {
        valid = record {
          coherent = r.coherent;
          bounded = omega (arith, ap length r.kept, length-take-le c.max (e ∷ c.ll), r.same_max);
        };
        same_max = r.same_max;
        refined = ap (map item) r.kept ∙ sym (take-map item c.max (e ∷ c.ll));
      })

  put_again :
      (c : Cache F) (k : Bytes) (d : ChartData F) (ttl : ℤ) (now : ℕ) {e : Element F}
      → IsValid c
      → leb_ℤ ttl (pos 0) ≡ false
      → find_key k c.ll ≡ some e
      → Step c
          (put c k (some d) ttl now)
          (item (entry k d (now + pos_part ttl) e.id) ∷ item_remove k (items c))
  put_again c k d ttl now {e} v lasts found =
      rw (put_found c v.coherent k d ttl now lasts found) (record {
        valid = record {
          coherent = front-Coherent (entry k d (now + pos_part ttl) e.id) e c v.coherent found refl;
          bounded = omega (arith, length-remove_key k c.ll found, v.bounded);
        };
        same_max = refl;
        refined =
            ap (λ l. item (entry k d (now + pos_part ttl) e.id) ∷ l) (sym (item_remove-map k c.ll));
      })

  put_over :
      (c : Cache F) (k : Bytes) (d : ChartData F) (ttl : ℤ) (now : ℕ)
      → leb_ℤ ttl (pos 0) ≡ true
      → put c k (some d) ttl now ≡ c
  unfolding put
  put_over c k d ttl now over = ground arith

  spec_put_over :
      (c : Cache F) (k : Bytes) (d : ChartData F) (ttl : ℤ) (now : ℕ)
      → leb_ℤ ttl (pos 0) ≡ true
      → spec_put c.max (items c) k (some d) ttl now ≡ items c
  unfolding spec_put
  spec_put_over c k d ttl now over = rw over

  spec_put_new :
      (c : Cache F) (k : Bytes) (d : ChartData F) (ttl : ℤ) (now : ℕ)
      → leb_ℤ ttl (pos 0) ≡ false
      → find_key k c.ll ≡ none
      → spec_put c.max (items c) k (some d) ttl now
        ≡ take c.max (item (entry k d (now + pos_part ttl) c.next_id) ∷ items c)
  unfolding spec_put
  spec_put_new c k d ttl now lasts absent =
      rw (lasts, item_remove-map k c.ll, remove_key_absent k c.ll absent)

  spec_put_again :
      (c : Cache F) (k : Bytes) (d : ChartData F) (ttl : ℤ) (now : ℕ) {e : Element F}
      → IsValid c
      → leb_ℤ ttl (pos 0) ≡ false
      → find_key k c.ll ≡ some e
      → spec_put c.max (items c) k (some d) ttl now
        ≡ item (entry k d (now + pos_part ttl) e.id) ∷ item_remove k (items c)
  unfolding spec_put
  spec_put_again c k d ttl now {e} v lasts found = rw lasts (
      take_of_length-le c.max (item (entry k d (now + pos_part ttl) e.id) ∷ item_remove k (items c))
        (omega (
          arith,
          v.bounded,
          length-remove_key k c.ll found,
          ap length (item_remove-map k c.ll),
          length-map item (remove_key k c.ll),
        )))

  pub put-Step :
      (c : Cache F) (k : Bytes) (d : Option (ChartData F)) (ttl : ℤ) (now : ℕ)
      → IsValid c
      → Step c (put c k d ttl now) (spec_put c.max (items c) k d ttl now)
  put-Step c k none ttl now v =
      unfold put spec_put in record { valid = v; same_max = refl; refined = refl }
  put-Step c k (some d) ttl now v = elim (Bool-cases (leb_ℤ ttl (pos 0))) [
    | inl over ↦
        rw (put_over c k d ttl now over, spec_put_over c k d ttl now over)
          (record { valid = v; same_max = refl; refined = refl })
    | inr lasts ↦ elim (Option-cases (find_key k c.ll)) [
      | inl absent ↦
          subst (Step c (put c k (some d) ttl now)) (sym (spec_put_new c k d ttl now lasts absent))
            (put_new c k d ttl now v lasts absent)
      | inr (e, found) ↦
          subst (Step c (put c k (some d) ttl now))
            (sym (spec_put_again c k d ttl now v lasts found))
            (put_again c k d ttl now v lasts found)
    ]
  ]
