-- ===== src/Cmd/Layers.antt =====
-- Which of the environment, the configuration file and the defaults a setting of the server comes from.
use mathlib.Core.Option
use tradingview_go.Common.{
  ◌≡◌, ◌≢◌, refl, ◌∙◌, Bool, true, Option, none, some, List, [], ◌∷◌, arith, ◌⊎◌, inl, inr,
  if◌then◌else◌, ℤ, pos, ltb_ℤ, leb_ℤ, Bool-cases, Option-cases,
}
use tradingview_go.Text.{Bytes, codes, beq, beq_iff}
use tradingview_go.Text.Decimal.{atoi}
use tradingview_go.Config.{Config, with_defaults}
use tradingview_go.Client.{new_client}
use tradingview_go.Cmd.Server.{
  ConfigFile, FileRead, System, override_text, override_size, override_bool, read_config, config_of,
  load_config,
}

-- The first text that is not empty.
abbrev pub first_text : List Bytes → Bytes
first_text [] = []
first_text (s ∷ texts) = let rest = first_text texts in if beq s [] then rest else s

-- The first integer that is positive, of those that are there.
abbrev pub first_positive : List (Option ℤ) → ℤ
first_positive [] = pos 0
first_positive (none ∷ sizes) = first_positive sizes
first_positive (some n ∷ sizes) =
    let rest = first_positive sizes in if ltb_ℤ (pos 0) n then n else rest

override_text-first :
    (v old d : Bytes)
    → d ≢ []
    → (if beq (override_text v old) [] then d else override_text v old)
      ≡ first_text (v ∷ old ∷ d ∷ [])
unfolding override_text
override_text-first v old d h = elim (Bool-cases (beq v [])) [
  | inl e ↦ rw e (elim (Bool-cases (beq old [])) [
    | inl e' ↦ rw e' (ground (arith, beq_iff d []))
    | inr e' ↦ rw e' refl
  ])
  | inr e ↦ rw e (rw e refl)
]

-- The test for the empty text changes nothing: it spells no number.
override_size-atoi :
    (v : Bytes) (old : ℤ)
    → override_size v old
      ≡ (elim (atoi v) [ none ↦ old | some n ↦ if ltb_ℤ (pos 0) n then n else old ])
unfolding override_size
override_size-atoi v old = elim (Bool-cases (beq v [])) [
  | inl e ↦ rw ((beq_iff v []).0 e) (unfold atoi beq in refl)
  | inr e ↦ rw e refl
]

or_default :
    (x d : ℤ)
    → ltb_ℤ (pos 0) d ≡ true
    → (if leb_ℤ x (pos 0) then d else x) ≡ first_positive (some x ∷ some d ∷ [])
or_default x d h = ground arith

override_size-first :
    (v : Bytes) (old d : ℤ)
    → ltb_ℤ (pos 0) d ≡ true
    → (if leb_ℤ (override_size v old) (pos 0) then d else override_size v old)
      ≡ first_positive (atoi v ∷ some old ∷ some d ∷ [])
override_size-first v old d h = elim (Option-cases (atoi v)) [
  | inl nothing ↦
      let kept : override_size v old ≡ old = override_size-atoi v old ∙ rw nothing refl in
      rw (kept, nothing) (or_default old d h)
  | inr (n, there) ↦ elim (Bool-cases (ltb_ℤ (pos 0) n)) [
    | inl up ↦
        let set : override_size v old ≡ n = override_size-atoi v old ∙ rw there (rw up refl) in
        rw (set, there) (or_default n d h ∙ rw up refl)
    | inr down ↦
        let kept : override_size v old ≡ old = override_size-atoi v old ∙ rw there (rw down refl) in
        rw (kept, there) (rw down (or_default old d h))
  ]
]

override_bool-get_or :
    (parse_bool : Bytes → Option Bool) (v : Bytes) (old : Bool)
    → parse_bool [] ≡ none
    → override_bool parse_bool v old ≡ Option.get_or (parse_bool v) old
unfolding override_bool
override_bool-get_or parse_bool v old h = elim (Bool-cases (beq v [])) [
  | inl e ↦ rw ((beq_iff v []).0 e) (rw h (unfold beq Option.get_or in refl))
  | inr e ↦ rw e (elim (Option-cases (parse_bool v)) [
    | inl nothing ↦ rw nothing (unfold Option.get_or in refl)
    | inr (b, there) ↦ rw there (unfold Option.get_or in refl)
  ])
]

loaded :
    (sys : System) (r : Bytes ⊎ ConfigFile) {cfg : Config}
    → (elim r as (λ x. Bytes ⊎ Config) [
      | inl text ↦ inl text
      | inr file ↦ inr (config_of sys file)
    ])
      ≡ inr cfg
    → (file : ConfigFile) × (r ≡ inr file) × (cfg ≡ config_of sys file)
loaded sys (inl text) e = absurd (ground arith)
loaded sys (inr file) e = (file, refl, ground arith)

-- A server whose configuration loads makes a client whose host and token are the first non-empty ones
-- of the environment, the configuration file (the zero values if there is none) and the defaults, whose
-- pool has the first positive size of the three, where a variable that spells no number counts for
-- nothing, and whose cache is on as the environment says, and as the file says where the variable
-- spells no truth value. The empty text spells none.
pub load_config-layers :
    (F : Type 0) (sys : System) (read : FileRead) {cfg : Config}
    → sys.parse_bool [] ≡ none
    → load_config sys read ≡ inr cfg
    → (file : ConfigFile) × (read_config sys read ≡ inr file)
      × (let c = (new_client {F = F} cfg).cfg in
          (c.host
            ≡ first_text (
                sys.getenv (codes "TRADINGVIEW_HOST")
                ∷ file.host
                ∷ codes "data.tradingview.com"
                ∷ []))
          × (c.auth_token
              ≡ first_text (
                  sys.getenv (codes "TRADINGVIEW_AUTH_TOKEN")
                  ∷ file.auth_token
                  ∷ codes "unauthorized_user_token"
                  ∷ []))
          × (c.pool_size
              ≡ first_positive (
                  atoi (sys.getenv (codes "TRADINGVIEW_POOL_SIZE"))
                  ∷ some file.pool_size
                  ∷ some (pos 8)
                  ∷ []))
          × (c.enable_cache
              ≡ Option.get_or
                  (sys.parse_bool (sys.getenv (codes "TRADINGVIEW_ENABLE_CACHE")))
                  file.enable_cache))
unfolding new_client with_defaults load_config
load_config-layers F sys read {cfg} nothing e =
    let (file, there, is) = loaded sys (read_config sys read) {cfg = cfg} e in
    (
      file,
      there,
      (
        rw is (override_text-first (sys.getenv (codes "TRADINGVIEW_HOST")) file.host _ (cc)),
        rw is (
            override_text-first (sys.getenv (codes "TRADINGVIEW_AUTH_TOKEN")) file.auth_token _
              (cc)),
        rw is (
            override_size-first (sys.getenv (codes "TRADINGVIEW_POOL_SIZE")) file.pool_size (pos 8)
              refl),
        rw is (
            override_bool-get_or sys.parse_bool (sys.getenv (codes "TRADINGVIEW_ENABLE_CACHE"))
              file.enable_cache nothing),
      ),
    )
