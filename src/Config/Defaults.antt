-- ===== src/Config/Defaults.antt =====
-- withDefaults fills every field, and changes none that is filled.
use tradingview_go.Common.{
  ◌≡◌, ◌≢◌, refl, false, none, some, [], arith, ℤ, pos, leb_ℤ, Option, if◌then◌else◌, Bool-cases,
  inl, inr,
}
use tradingview_go.Text.{Bytes, beq, beq_iff}
use tradingview_go.Config.{or_map, Config, default_config, with_defaults}

abbrev pub IsPositive : ℤ → Type 0
IsPositive x = leb_ℤ x (pos 0) ≡ false

-- No field is left at its zero value.
pub record IsComplete (c : Config) : Type 0 where
  pub host : c.host ≢ []
  pub auth_token : c.auth_token ≢ []
  pub pool_size : IsPositive c.pool_size
  pub handshake_timeout : IsPositive c.handshake_timeout
  pub fetch_timeout : IsPositive c.fetch_timeout
  pub idle_conn_timeout : IsPositive c.idle_conn_timeout
  pub search_timeout : IsPositive c.search_timeout
  pub cache_ttls : c.cache_ttls ≢ none
  pub cache_size : IsPositive c.cache_size
  pub candle_history : IsPositive c.candle_history
  pub user_agent : c.user_agent ≢ []

or_int_lem : (x d : ℤ) → IsPositive d → IsPositive (if leb_ℤ x (pos 0) then d else x)
or_int_lem x d h = elim (Bool-cases (leb_ℤ x (pos 0))) [ inl e ↦ rw e h | inr e ↦ rw e e ]

or_text-ne-nil : (x d : Bytes) → d ≢ [] → (if beq x [] then d else x) ≢ []
or_text-ne-nil x d h = elim (Bool-cases (beq x [])) [
  | inl e ↦ rw e h
  | inr e ↦ rw e (ground (arith, beq_iff x []))
]

-- The configuration that withDefaults returns has every field filled.
pub with_defaults-IsComplete : (c : Config) → IsComplete (with_defaults c)
unfolding with_defaults
with_defaults-IsComplete c = record {
  host = or_text-ne-nil c.host _ (cc);
  auth_token = or_text-ne-nil c.auth_token _ (cc);
  pool_size = or_int_lem c.pool_size _ refl;
  handshake_timeout = or_int_lem c.handshake_timeout _ refl;
  fetch_timeout = or_int_lem c.fetch_timeout _ refl;
  idle_conn_timeout = or_int_lem c.idle_conn_timeout _ refl;
  search_timeout = or_int_lem c.search_timeout _ refl;
  cache_ttls = ground arith;
  cache_size = or_int_lem c.cache_size _ refl;
  candle_history = or_int_lem c.candle_history _ refl;
  user_agent = or_text-ne-nil c.user_agent _ (cc);
}

or_int_kept : (x d : ℤ) → IsPositive x → (if leb_ℤ x (pos 0) then d else x) ≡ x
or_int_kept x d h = rw h

or_text_kept : (x d : Bytes) → x ≢ [] → (if beq x [] then d else x) ≡ x
or_text_kept x d h = elim (Bool-cases (beq x [])) [
  | inl e ↦ absurd (h ((beq_iff x []).0 e))
  | inr e ↦ rw e
]

or_map_kept {ℓ} : {A : Type ℓ} (x d : Option A) → x ≢ none → or_map x d ≡ x
or_map_kept none d h = absurd (h refl)
or_map_kept (some m) d h = refl

-- A configuration with every field filled stays as it is: what a caller sets is never overridden.
pub with_defaults_of_IsComplete : (c : Config) → IsComplete c → with_defaults c ≡ c
unfolding with_defaults
with_defaults_of_IsComplete c h = λ i. record {
  host = or_text_kept c.host default_config.host h.host i;
  auth_token = or_text_kept c.auth_token default_config.auth_token h.auth_token i;
  pool_size = or_int_kept c.pool_size default_config.pool_size h.pool_size i;
  handshake_timeout =
      or_int_kept c.handshake_timeout default_config.handshake_timeout h.handshake_timeout i;
  fetch_timeout = or_int_kept c.fetch_timeout default_config.fetch_timeout h.fetch_timeout i;
  idle_conn_timeout =
      or_int_kept c.idle_conn_timeout default_config.idle_conn_timeout h.idle_conn_timeout i;
  search_timeout = or_int_kept c.search_timeout default_config.search_timeout h.search_timeout i;
  cache_ttls = or_map_kept c.cache_ttls default_config.cache_ttls h.cache_ttls i;
  cache_size = or_int_kept c.cache_size default_config.cache_size h.cache_size i;
  enable_cache = c.enable_cache;
  candle_history = or_int_kept c.candle_history default_config.candle_history h.candle_history i;
  user_agent = or_text_kept c.user_agent default_config.user_agent h.user_agent i;
}
