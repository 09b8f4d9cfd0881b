-- ===== src/Symbols.antt =====
-- protocol.go, the normal forms of what a user types: NormalizeSymbol and NormalizeResolution with
-- their two tables.
pub mod Laws
pub mod Tests
use tradingview_go.Common.{
  Bool, true, false, ◌||◌, Option, none, some, List, [], ◌∷◌, if◌then◌else◌,
}
use tradingview_go.Text.{Bytes, codes, beq, to_upper, trim_space}

-- A Go map with text keys, as the list of its entries.
module _ {ℓ} {V : Type ℓ} where
  unfoldable pub lookup : Bytes → List (Bytes × V) → Option V
  lookup k [] = none
  lookup k ((j, v) ∷ m) = if beq j k then some v else lookup k m

-- A Go map to `struct{}`, as the list of its keys.
unfoldable pub member : Bytes → List Bytes → Bool
member k [] = false
member k (j ∷ ks) = beq j k || member k ks

abbrev pub valid_resolutions : List Bytes
valid_resolutions =
    codes "1"
    ∷ codes "3"
    ∷ codes "5"
    ∷ codes "15"
    ∷ codes "30"
    ∷ codes "45"
    ∷ codes "60"
    ∷ codes "120"
    ∷ codes "180"
    ∷ codes "240"
    ∷ codes "D"
    ∷ codes "1D"
    ∷ codes "W"
    ∷ codes "1W"
    ∷ codes "M"
    ∷ codes "1M"
    ∷ []

abbrev pub friendly_to_wire : List (Bytes × Bytes)
friendly_to_wire =
    (codes "1M", codes "1")
    ∷ (codes "1MIN", codes "1")
    ∷ (codes "3M", codes "3")
    ∷ (codes "3MIN", codes "3")
    ∷ (codes "5M", codes "5")
    ∷ (codes "5MIN", codes "5")
    ∷ (codes "15M", codes "15")
    ∷ (codes "15MIN", codes "15")
    ∷ (codes "30M", codes "30")
    ∷ (codes "30MIN", codes "30")
    ∷ (codes "45M", codes "45")
    ∷ (codes "45MIN", codes "45")
    ∷ (codes "1H", codes "60")
    ∷ (codes "60M", codes "60")
    ∷ (codes "2H", codes "120")
    ∷ (codes "3H", codes "180")
    ∷ (codes "4H", codes "240")
    ∷ (codes "1D", codes "D")
    ∷ (codes "DAILY", codes "D")
    ∷ (codes "1W", codes "W")
    ∷ (codes "WEEKLY", codes "W")
    ∷ (codes "1MN", codes "M")
    ∷ (codes "MONTHLY", codes "M")
    ∷ []

-- The body of NormalizeResolution behind its trimming and upper-casing; `none` for ("", false).
unfoldable pub to_wire : Bytes → Option Bytes
to_wire r = if beq r [] then none else elim (lookup r friendly_to_wire) [
  | some mapped ↦ some mapped
  | none ↦ if member r valid_resolutions then some r else none
]

unfoldable pub normalize_symbol : Bytes → Bytes
normalize_symbol s = to_upper (trim_space s)

unfoldable pub normalize_resolution : Bytes → Option Bytes
normalize_resolution r = to_wire (to_upper (trim_space r))
