-- ===== src/Cache/Spec.antt =====
-- The specification of the cache: a list of entries with the most recent first, no pointers and no
-- map beside it.
use mathlib.Core.Option
use tradingview_go.Common.{
  ℕ, ◌+◌, ◌≡◌, refl, Option, none, some, List, [], ◌∷◌, arith, ltb, if◌then◌else◌, take, map, ℤ,
  pos, leb_ℤ, pos_part,
}
use tradingview_go.Text.{Bytes, beq}
use tradingview_go.Types.{ChartData}
use tradingview_go.Cache.{Element, Cache, clone}
use tradingview_go.Cache.Elements.{find_key, remove_key}

pub record Item (F : Type 0) : Type 0 where
  pub key : Bytes
  pub chart : ChartData F
  pub expires_at : ℕ

module _ {F : Type 0} where
  abbrev pub item : Element F → Item F
  item e = record { key = e.key; chart = e.chart; expires_at = e.expires_at }

  abbrev pub items : Cache F → List (Item F)
  items c = map item c.ll

  unfoldable pub item_find : Bytes → List (Item F) → Option (Item F)
  item_find k [] = none
  item_find k (e ∷ l) = if beq e.key k then some e else item_find k l

  unfoldable pub item_remove : Bytes → List (Item F) → List (Item F)
  item_remove k [] = []
  item_remove k (e ∷ l) = if beq e.key k then l else e ∷ item_remove k l

  -- A hit moves to the front; an entry past its time is dropped.
  unfoldable pub spec_get : List (Item F) → Bytes → ℕ → List (Item F) × Option (ChartData F)
  spec_get l k now = elim (item_find k l) [
    | none ↦ (l, none)
    | some e ↦
        if ltb e.expires_at now
        then (item_remove k l, none)
        else (e ∷ item_remove k l, some (clone e.chart))
  ]

  -- The key's entry goes to the front, and what does not fit falls off the end.
  unfoldable pub spec_put : ℕ → List (Item F) → Bytes → Option (ChartData F) → ℤ → ℕ → List (Item F)
  spec_put max l k none ttl now = l
  spec_put max l k (some d) ttl now =
      if leb_ℤ ttl (pos 0)
      then l
      else take max
          (record { key = k; chart = d; expires_at = now + pos_part ttl } ∷ item_remove k l)

  pub item_find-map :
      (k : Bytes) (l : List (Element F)) → item_find k (map item l) ≡ Option.map item (find_key k l)
  unfolding item_find find_key
  item_find-map k [] = refl
  item_find-map k (e ∷ l) = ground (arith, item_find-map k l)

  pub item_remove-map :
      (k : Bytes) (l : List (Element F)) → item_remove k (map item l) ≡ map item (remove_key k l)
  unfolding item_remove remove_key
  item_remove-map k [] = refl
  item_remove-map k (e ∷ l) = ground (arith, item_remove-map k l)
