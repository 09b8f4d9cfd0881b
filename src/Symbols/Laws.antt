-- ===== src/Symbols/Laws.antt =====
-- What NormalizeResolution returns, and that both normal forms are final.
use tradingview_go.Common.{
  ◌≡◌, ◌≢◌, refl, ap, ◌∙◌, Bool, true, false, ◌&&◌, none, some, List, [], ◌∷◌, arith, Option-cases,
  inl, inr,
}
use tradingview_go.Text.{Bytes, codes, beq, beq_iff, to_upper, trim_space}
use tradingview_go.Text.Trim.{upper-trim_idem}
use tradingview_go.Symbols.{
  lookup, member, valid_resolutions, friendly_to_wire, to_wire, normalize_symbol,
  normalize_resolution,
}

-- The thirteen forms that go over the wire, each resolution under one name.
abbrev pub wire_forms : List Bytes
wire_forms =
    codes "1"
    ∷ codes "3"
    ∷ codes "5"
    ∷ codes "15"
    ∷ codes "30"
    ∷ codes "45"
    ∷ codes "60"
    ∷ codes "120"
    ∷ codes "180"
    ∷ codes "240"
    ∷ codes "D"
    ∷ codes "W"
    ∷ codes "M"
    ∷ []

check_values : (Bytes → Bool) → List (Bytes × Bytes) → Bool
check_values p [] = true
check_values p ((k, v) ∷ m) = p v && check_values p m

unfoldable pub check_keys : (Bytes → Bool) → List Bytes → Bool
check_keys p [] = true
check_keys p (k ∷ ks) = p k && check_keys p ks

check_values_sound :
    (p : Bytes → Bool) (k : Bytes) (m : List (Bytes × Bytes)) {v : Bytes}
    → check_values p m ≡ true
    → lookup k m ≡ some v
    → p v ≡ true
unfolding check_values lookup
check_values_sound p k [] h e = absurd (ground arith)
check_values_sound p k ((j, w) ∷ m) {v} h e = ground (arith, check_values_sound p k m {v = v})

pub check_keys_sound :
    (p : Bytes → Bool) (k : Bytes) (ks : List Bytes)
    → check_keys p ks ≡ true
    → member k ks ≡ true
    → p k ≡ true
unfolding check_keys member
check_keys_sound p k [] h e = absurd (ground arith)
check_keys_sound p k (j ∷ ks) h e = ground (arith, check_keys_sound p k ks, beq_iff j k)

-- A valid resolution is a wire form, or the table of aliases has it.
settled : Bytes → Bool
settled r = elim (lookup r friendly_to_wire) [ some v ↦ true | none ↦ member r wire_forms ]

values_are_wire : check_values (λ v. member v wire_forms) friendly_to_wire ≡ true
unfolding check_values member beq
values_are_wire = refl

valid_are_settled : check_keys settled valid_resolutions ≡ true
unfolding check_keys settled lookup member beq
valid_are_settled = refl

-- `to_wire` maps this text to itself.
fixed : Bytes → Bool
fixed w = elim (to_wire w) [ some v ↦ beq v w | none ↦ false ]

wire_are_fixed :
    check_keys (λ w. fixed (to_upper (trim_space w)) && beq (to_upper (trim_space w)) w) wire_forms
    ≡ true
unfolding check_keys fixed to_wire lookup member beq to_upper trim_space
wire_are_fixed = refl

to_wire-wire : (r : Bytes) {w : Bytes} → to_wire r ≡ some w → member w wire_forms ≡ true
unfolding to_wire settled
to_wire-wire r {w} e = ground (
  arith,
  check_values_sound (λ v. member v wire_forms) r friendly_to_wire {v = w} values_are_wire,
  check_keys_sound settled r valid_resolutions valid_are_settled,
)

fixed-eq : (w : Bytes) → fixed w ≡ true → to_wire w ≡ some w
unfolding fixed
fixed-eq w h = elim (Option-cases (to_wire w)) [
  | inl e ↦ absurd (ground arith)
  | inr (v, e) ↦ ground (arith, beq_iff v w)
]

wire-fixed : (w : Bytes) → member w wire_forms ≡ true → normalize_resolution w ≡ some w
unfolding normalize_resolution
wire-fixed w m =
    let u = to_upper (trim_space w) in
    let both : (fixed u && beq u w) ≡ true =
      check_keys_sound (λ w. fixed (to_upper (trim_space w)) && beq (to_upper (trim_space w)) w) w
        wire_forms wire_are_fixed m in
    let same : u ≡ w = ground (arith, beq_iff u w) in fixed-eq u (ground arith) ∙ ap some same

-- A normalised resolution is one of the thirteen wire forms, which list each resolution once, and
-- normalising it again changes nothing.
pub normalize_resolution-wire :
    (r : Bytes) {w : Bytes}
    → normalize_resolution r ≡ some w
    → (member w wire_forms ≡ true) × (normalize_resolution w ≡ some w)
normalize_resolution-wire r {w} e =
    let m = to_wire-wire (to_upper (trim_space r)) {w = w} (unfold normalize_resolution in e) in
    (m, wire-fixed w m)

accepted : Bytes → Bool
accepted r = elim (normalize_resolution r) [ some w ↦ true | none ↦ false ]

valid_are_accepted : check_keys accepted valid_resolutions ≡ true
unfolding accepted normalize_resolution check_keys to_wire lookup member beq to_upper trim_space
valid_are_accepted = refl

-- Every key of ValidResolutions is accepted.
pub normalize_resolution-valid :
    (r : Bytes) → member r valid_resolutions ≡ true → normalize_resolution r ≢ none
unfolding accepted
normalize_resolution-valid r m =
    ground (arith, check_keys_sound accepted r valid_resolutions valid_are_accepted m)

-- Normalising a symbol twice is the same as normalising it once.
pub normalize_symbol_idem : (s : Bytes) → normalize_symbol (normalize_symbol s) ≡ normalize_symbol s
unfolding normalize_symbol
normalize_symbol_idem s = upper-trim_idem s
