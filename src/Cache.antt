-- ===== src/Cache.antt =====
-- cache.go: the TTL and LRU cache, a doubly linked list of entries (container/list) beside a map
-- from keys to list elements. An element is known by an id, its pointer.
pub mod Elements
pub mod Coherent
pub mod Spec
pub mod Refine
pub mod Kept
pub mod Held
pub mod Run
pub mod Reads
pub mod Keys
pub mod KeyText
pub mod Tests
use tradingview_go.Common.{
  ℕ, zero, suc, ◌+◌, Bool, true, false, Option, none, some, List, [], ◌∷◌, ◌++◌, ltb, leb, ◌==◌,
  if◌then◌else◌, ℤ, pos, pos_part, leb_ℤ, length,
}
use tradingview_go.Text.{Bytes, codes, beq}
use tradingview_go.Text.Decimal.{format_int}
use tradingview_go.Types.{ChartData}

-- `fmt.Sprintf("%s|%s|%d", symbol, resolution, bars)`
unfoldable pub make_cache_key : Bytes → Bytes → ℤ → Bytes
make_cache_key symbol resolution bars =
    symbol ++ (codes "|" ++ (resolution ++ (codes "|" ++ format_int bars)))

-- A list element with the cacheEntry that it holds.
pub record Element (F : Type 0) : Type 0 where
  pub id : ℕ
  pub key : Bytes
  pub chart : ChartData F
  pub expires_at : ℕ

-- The front of the list comes first. `next_id` is the pointer of the next element.
pub record Cache (F : Type 0) : Type 0 where
  pub max : ℕ
  pub ll : List (Element F)
  pub idx : Bytes → Option ℕ
  pub next_id : ℕ

module _ {F : Type 0} where
  unfoldable pub new_cache : ℕ → Cache F
  new_cache size = record { max = size; ll = []; idx = λ k. none; next_id = 0 }

  -- The value behind an element's pointer.
  unfoldable pub find_id : ℕ → List (Element F) → Option (Element F)
  find_id i [] = none
  find_id i (e ∷ l) = if e.id == i then some e else find_id i l

  -- `ll.Remove(el)`
  unfoldable pub remove_id : ℕ → List (Element F) → List (Element F)
  remove_id i [] = []
  remove_id i (e ∷ l) = if e.id == i then l else e ∷ remove_id i l

  -- `ll.MoveToFront(el)`
  unfoldable pub move_to_front : ℕ → List (Element F) → List (Element F)
  move_to_front i l = elim (find_id i l) [ none ↦ l | some e ↦ e ∷ remove_id i l ]

  -- `e.data = data; e.expiresAt = …` through the element's pointer
  unfoldable pub write_id : ℕ → ChartData F → ℕ → List (Element F) → List (Element F)
  write_id i d expires [] = []
  write_id i d expires (e ∷ l) =
      if e.id == i
      then record e { chart = d; expires_at = expires } ∷ l
      else e ∷ write_id i d expires l

  -- `ll.Back()`
  unfoldable pub back : List (Element F) → Option (Element F)
  back [] = none
  back (e ∷ l) = elim (back l) [ none ↦ some e | some f ↦ some f ]

unfoldable pub put_key : Bytes → ℕ → (Bytes → Option ℕ) → Bytes → Option ℕ
put_key k i m j = if beq k j then some i else m j

unfoldable pub delete_key : Bytes → (Bytes → Option ℕ) → Bytes → Option ℕ
delete_key k m j = if beq k j then none else m j

module _ {F : Type 0} where
  abbrev pub clone : ChartData F → ChartData F
  clone d = record d { cached = true }

  unfoldable pub get : Cache F → Bytes → ℕ → Cache F × Option (ChartData F)
  get c k now = elim (c.idx k) [
    | none ↦ (c, none)
    | some i ↦ elim (find_id i c.ll) [
      | none ↦ (c, none)
      | some e ↦
          if ltb e.expires_at now
          then (record c { ll = remove_id i c.ll; idx = delete_key k c.idx }, none)
          else (record c { ll = move_to_front i c.ll }, some (clone e.chart))
    ]
  ]

  -- One round of the loop at the end of put.
  unfoldable pub drop_element : Element F → Cache F → Cache F
  drop_element old c = record c { ll = remove_id old.id c.ll; idx = delete_key old.key c.idx }

  -- The loop; the fuel is the length of the list.
  unfoldable pub evict : ℕ → Cache F → Cache F
  evict zero c = c
  evict (suc fuel) c =
      if ltb c.max (length c.ll)
      then (elim (back c.ll) [ none ↦ c | some old ↦ evict fuel (drop_element old c) ])
      else c

  unfoldable pub put : Cache F → Bytes → Option (ChartData F) → ℤ → ℕ → Cache F
  put c k none ttl now = c
  put c k (some d) ttl now = if leb_ℤ ttl (pos 0) then c else elim (c.idx k) [
    | some i ↦ record c { ll = move_to_front i (write_id i d (now + pos_part ttl) c.ll) }
    | none ↦
        let e : Element F = record {
          id = c.next_id;
          key = k;
          chart = d;
          expires_at = now + pos_part ttl;
        } in
        let pushed = record c {
          ll = e ∷ c.ll;
          idx = put_key k c.next_id c.idx;
          next_id = suc c.next_id;
        } in
        evict (length pushed.ll) pushed
  ]
