-- ===== src/Cache/Coherent.antt =====
-- The invariant that ties the map to the list, and that each step of get and put keeps it.
use native.Mathlib.Decide.{dec_lt}
use mathlib.Core.Option
use tradingview_go.Common.{
  take_of_length-le, take-take, ℕ, zero, suc, ◌+◌, ◌-◌, ◌≤◌, ◌<◌, ◌≡◌, refl, sym, ap, ◌∙◌, true,
  Option, none, some, List, [], ◌∷◌, arith, ltb, length, take, length-take_eq,
}
use tradingview_go.Text.{Bytes, beq_iff}
use tradingview_go.Cache.{Element, Cache, back, put_key, delete_key, drop_element, evict, new_cache}
use tradingview_go.Cache.Elements.{
  find_key, remove_key, Distinct, Below, remove_id-find_key, find_key-remove_key,
  remove_key-Distinct, remove_key-Below, find_id_above, Below-suc, back-find_key, remove_key-back,
  find_key-Below, find_id-remove_key_self,
}

module _ {F : Type 0} where
  abbrev pub id_of : Bytes → List (Element F) → Option ℕ
  id_of k l = Option.map (λ e. e.id) (find_key k l)

  -- The map holds the pointer of the one element with each key; pointers are not reused.
  pub record Coherent (c : Cache F) : Type 0 where
    pub distinct : Distinct c.ll
    pub below : Below c.next_id c.ll
    pub agree : (k : Bytes) → c.idx k ≡ id_of k c.ll

  pub new_cache-Coherent : (size : ℕ) → Coherent (new_cache size)
  unfolding new_cache find_key
  new_cache-Coherent size = record { distinct = tt; below = tt; agree = λ k. refl }

  -- Without the key `k`, in the list and in the map.
  abbrev pub without : Bytes → Cache F → Cache F
  without k c = record c { ll = remove_key k c.ll; idx = delete_key k c.idx }

  pub without-Coherent : (k : Bytes) (c : Cache F) → Coherent c → Coherent (without k c)
  unfolding delete_key
  without-Coherent k c h = record {
    distinct = remove_key-Distinct k c.ll h.distinct;
    below = remove_key-Below c.next_id k c.ll h.below;
    agree = λ j. ground (arith, h.agree j, find_key-remove_key k j c.ll h.distinct);
  }

  -- With an element moved to the front, its value perhaps replaced.
  abbrev pub front : Element F → Cache F → Cache F
  front e c = record c { ll = e ∷ remove_key e.key c.ll }

  pub front-Coherent :
      (e old : Element F) (c : Cache F)
      → Coherent c
      → find_key e.key c.ll ≡ some old
      → e.id ≡ old.id
      → Coherent (front e c)
  unfolding find_key
  front-Coherent e old c h found same = record {
    distinct = (
      ground (arith, find_id-remove_key_self e.key c.ll {e = old} h.distinct),
      ground (arith, find_key-remove_key e.key e.key c.ll h.distinct, beq_iff e.key e.key),
      remove_key-Distinct e.key c.ll h.distinct,
    );
    below = (
      ground (arith, find_key-Below c.next_id e.key c.ll {e = old} h.below),
      remove_key-Below c.next_id e.key c.ll h.below,
    );
    agree = λ j.
        ground (arith, h.agree j, find_key-remove_key e.key j c.ll h.distinct, beq_iff e.key j);
  }

  -- With a new element at the front.
  abbrev pub pushed : Element F → Cache F → Cache F
  pushed e c = record c {
    ll = e ∷ c.ll;
    idx = put_key e.key c.next_id c.idx;
    next_id = suc c.next_id;
  }

  pub pushed-Coherent :
      (e : Element F) (c : Cache F)
      → Coherent c
      → e.id ≡ c.next_id
      → find_key e.key c.ll ≡ none
      → Coherent (pushed e c)
  unfolding find_key put_key
  pushed-Coherent e c h same absent = record {
    distinct = (ground (arith, find_id_above c.next_id c.ll h.below), absent, h.distinct);
    below = (omega arith, Below-suc c.next_id c.ll h.below);
    agree = λ j. ground (arith, h.agree j, beq_iff e.key j);
  }

  drop_element-without :
      (c : Cache F) {old : Element F}
      → Coherent c
      → back c.ll ≡ some old
      → drop_element old c ≡ without old.key c
  unfolding drop_element
  drop_element-without c {old} h last =
      ap (λ l. record c { ll = l; idx = delete_key old.key c.idx })
        (remove_id-find_key old.key c.ll h.distinct (back-find_key c.ll h.distinct last))

  back-some :
      (l : List (Element F)) (n : ℕ) → length l ≡ suc n → (old : Element F) × (back l ≡ some old)
  unfolding back
  back-some [] n h = absurd (omega arith)
  back-some (x ∷ []) n h = (x, refl)
  back-some (x ∷ (y ∷ l)) n h = let (old, e) = back-some (y ∷ l) (length l) refl in (old, rw e)

  evict_within : (fuel : ℕ) (c : Cache F) → length c.ll ≤ c.max → evict fuel c ≡ c
  unfolding evict
  evict_within zero c h = refl
  evict_within (suc fuel) c h = ground arith

  evict_over :
      (fuel : ℕ) (c : Cache F) {old : Element F}
      → c.max < length c.ll
      → back c.ll ≡ some old
      → evict (suc fuel) c ≡ evict fuel (drop_element old c)
  unfolding evict
  evict_over fuel c h last =
      let over : ltb c.max (length c.ll) ≡ true = ground arith in rw (over, last)

  pub record Evicted (c r : Cache F) : Type 0 where
    pub coherent : Coherent r
    pub kept : r.ll ≡ take c.max c.ll
    pub same_max : r.max ≡ c.max

  -- The loop keeps the most recent elements, as many as the bound allows.
  pub evict-Evicted :
      (fuel : ℕ) (c : Cache F) → Coherent c → length c.ll ≤ c.max + fuel → Evicted c (evict fuel c)
  evict-Evicted zero c h fits = rw (evict_within zero c (omega arith)) (record {
    coherent = h;
    kept = sym (take_of_length-le c.max c.ll (omega arith));
    same_max = refl;
  })
  evict-Evicted (suc fuel) c h fits = elim (dec_lt c.max (length c.ll)) [
    | no within ↦ rw (evict_within (suc fuel) c (omega arith)) (record {
      coherent = h;
      kept = sym (take_of_length-le c.max c.ll (omega arith));
      same_max = refl;
    })
    | yes over ↦
        let n = length c.ll - 1 in
        let (old, last) = back-some c.ll n (omega arith) in
        let shorter : remove_key old.key c.ll ≡ take n c.ll =
          remove_key-back n c.ll h.distinct (omega arith) last in
        let v =
          evict-Evicted fuel (without old.key c) (without-Coherent old.key c h)
            (omega (arith, ap length shorter, length-take_eq n c.ll)) in
        rw (evict_over fuel c over last, drop_element-without c h last)
          (record {
            coherent = v.coherent;
            kept = v.kept ∙ (ap (take c.max) shorter ∙ take-take c.max n c.ll (omega arith));
            same_max = v.same_max;
          })
  ]
