-- ===== src/Cache/Keys.antt =====
-- What get and put do to a coherent cache, with the pointers gone.
use tradingview_go.Common.{
  ℕ, suc, ◌+◌, ◌≤◌, ◌<◌, ◌≡◌, false, none, some, arith, length, ℤ, pos, leb_ℤ, pos_part,
}
use tradingview_go.Text.{Bytes}
use tradingview_go.Types.{ChartData}
use tradingview_go.Cache.{Element, Cache, clone, get, put, evict}
use tradingview_go.Cache.Elements.{
  find_key, find_key-key, remove_id-find_key, find_id-find_key, move_to_front-find_key,
  move_to_front-write_id,
}
use tradingview_go.Cache.Coherent.{Coherent, without, front, pushed}

-- The element that put makes, or overwrites another with.
abbrev pub entry : {F : Type 0} → Bytes → ChartData F → ℕ → ℕ → Element F
entry k d expires i = record { id = i; key = k; chart = d; expires_at = expires }

module _ {F : Type 0} (c : Cache F) (h : Coherent c) (k : Bytes) where
  module _ (now : ℕ) where
    pub get_absent : find_key k c.ll ≡ none → get c k now ≡ (c, none)
    unfolding get
    get_absent absent = let e : c.idx k ≡ none = ground (arith, h.agree k) in rw (e, get)

    module _ {e : Element F} (found : find_key k c.ll ≡ some e) where
      idx_found : c.idx k ≡ some e.id
      idx_found = ground (arith, h.agree k)

      pub get_expired : e.expires_at < now → get c k now ≡ (without k c, none)
      unfolding get
      get_expired late = ground (
        arith,
        idx_found,
        find_id-find_key k c.ll {e = e} h.distinct found,
        remove_id-find_key k c.ll {e = e} h.distinct found,
      )

      pub get_live : now ≤ e.expires_at → get c k now ≡ (front e c, some (clone e.chart))
      unfolding get
      get_live live = ground (
        arith,
        idx_found,
        find_id-find_key k c.ll {e = e} h.distinct found,
        move_to_front-find_key k c.ll {e = e} h.distinct found,
        find_key-key k c.ll {e = e} found,
      )

  module _ (d : ChartData F) (ttl : ℤ) (now : ℕ) (lasts : leb_ℤ ttl (pos 0) ≡ false) where
    pub put_found :
        {e : Element F}
        → find_key k c.ll ≡ some e
        → put c k (some d) ttl now ≡ front (entry k d (now + pos_part ttl) e.id) c
    unfolding put
    put_found {e} found = ground (
      arith,
      h.agree k,
      move_to_front-write_id k d (now + pos_part ttl) c.ll {e = e} h.distinct found,
      find_key-key k c.ll {e = e} found,
    )

    pub put_absent :
        find_key k c.ll ≡ none
        → put c k (some d) ttl now
          ≡ evict (suc (length c.ll)) (pushed (entry k d (now + pos_part ttl) c.next_id) c)
    unfolding put
    put_absent absent = ground (arith, h.agree k)
