-- ===== src/Ta/Pipeline/Safe.antt =====
-- The indicators do not panic on the series that Compute and EnrichMulti give them.
use tradingview_go.Common.{
  ℕ, ◌≤◌, ◌<◌, ◌≡◌, ◌≢◌, refl, inl, inr, true, some, List, [], ◌∷◌, arith, ℤ, pos, negsuc, length,
  ltb, ltb_ℤ, Bool-cases, Option-cases, All,
}
use tradingview_go.Text.{Bytes}
use tradingview_go.Types.{Candle}
use tradingview_go.Ta.{
  Enricher, rsi, atr, vwap, adx, divergence, support_resistance, fib_levels, price_context, macd,
  ema, bollinger, supertrend, obv, stoch_rsi, volume_profile,
}
use tradingview_go.Ta.Float.{Float, num, ◌≤?◌, ◌=?◌}
use tradingview_go.Ta.Eval.{Eval, done, panics, no_fuel, ◌>>=◌}
use tradingview_go.Ta.Library.{Library, Annotation}
use tradingview_go.Ta.Candles.{closes, volume_close, hlc, last_elem, last}
use tradingview_go.Ta.Candles.Swing.{last_elem-some, last_part-some, find_swing-some}
use tradingview_go.Ta.Profile.Bounds.{compute_profile-done}
use tradingview_go.Ta.Trend.{
  from_end, ema_values, enrich_rsi, enrich_macd, enrich_ema, enrich_bollinger, enrich_atr,
}
use tradingview_go.Ta.Momentum.{
  enrich_supertrend, enrich_vwap, enrich_obv, enrich_adx, enrich_stoch_rsi, enrich_divergence,
}
use tradingview_go.Ta.Levels.{
  enrich_sr, enrich_profile, enrich_fib, enrich_context, first_open, on_window,
}
use tradingview_go.Ta.Pipeline.{enrich}

-- It returns: no panic, and no fuel that has run out.
abbrev pub Returns : {A : Type 0} → Eval A → Type 0
Returns (done a) = Unit
Returns _ = ⊥

abbrev pub IsPositive : ℤ → Type 0
IsPositive n = ltb_ℤ (pos 0) n ≡ true

-- The windows, the bins and the periods of the EMAs are positive.
abbrev pub IsSound : {F : Type 0} → Enricher F → Type 0
IsSound (ema periods) = All IsPositive periods
IsSound (support_resistance lookback) = IsPositive lookback
IsSound (fib_levels lookback) = IsPositive lookback
IsSound (price_context lookback) = IsPositive lookback
IsSound (volume_profile bins lookback) = IsPositive bins × IsPositive lookback
IsSound _ = Unit

pub Returns->>= :
    {A B : Type 0} (m : Eval A) (k : A → Eval B)
    → Returns m
    → ((a : A) → Returns (k a))
    → Returns (m >>= k)
Returns->>= (done a) k h ks = ks a
Returns->>= panics k h ks = elim h [ ]
Returns->>= no_fuel k h ks = elim h [ ]

module _ {F : Type 0} where
  closes-ne : (c : List (Candle F)) → c ≢ [] → closes c ≢ []
  unfolding closes
  closes-ne [] h e = h refl
  closes-ne (b ∷ c) h e = ground arith

  -- A window of positive length is in range and not empty.
  on_window-Returns :
      (c : List (Candle F)) (lookback : ℤ) (rest : List (Candle F) → Eval (List Annotation))
      → IsPositive lookback
      → ((window : List (Candle F)) → window ≢ [] → Returns (rest window))
      → Returns (on_window c lookback rest)
  on_window-Returns c lookback rest p h = elim (Bool-cases (ltb_ℤ (pos (length c)) lookback)) [
    | inl short ↦ rw short tt
    | inr long ↦ let (part, e, ne) = last_part-some c lookback p long in rw (long, e) (h part ne)
  ]

  from_end-some : (k : ℕ) (s : List F) → 0 < k → k ≤ length s → (x : F) × (from_end k s ≡ some x)
  unfolding from_end
  from_end-some k s h le =
      let (part, e, ne) = last_part-some s (pos k) (ground arith) (ground arith) in
      let (x, rest, is) = nonempty part ne in (x, rw (e, from_end) (rw is refl))
    where
      nonempty : (l : List F) → l ≢ [] → (x : F) × (rest : List F) × (l ≡ x ∷ rest)
      nonempty [] h = absurd (h refl)
      nonempty (x ∷ rest) h = (x, rest, refl)

  first_open-some : (c : List (Candle F)) → c ≢ [] → (x : F) × (first_open c ≡ some x)
  unfolding first_open
  first_open-some [] h = absurd (h refl)
  first_open-some (b ∷ c) h = (b.open_, refl)

module _ {F Extreme Line : Type 0} ⦃f : Float F⦄ (lib : Library F Extreme Line)
    (c : List (Candle F)) (tf : Bytes) (ne : c ≢ []) where
  ema_values-Returns :
      (periods : List ℤ) (vals : List (ℤ × F))
      → All IsPositive periods
      → Returns (ema_values lib c tf periods vals)
  unfolding ema_values
  ema_values-Returns [] vals h = tt
  ema_values-Returns (negsuc n ∷ periods) vals (p, h) = absurd (ground arith)
  ema_values-Returns (pos n ∷ periods) vals (p, h) =
      elim (Bool-cases (ltb_ℤ (pos (length (closes c))) (pos n))) [
        | inl long ↦ rw long (ema_values-Returns periods vals h)
        | inr fits ↦
            let (averages, e) = lib.ema-done (closes c) n (ground arith) (ground arith) in
            rw fits (rw e (ema_values-Returns periods ((pos n, last averages) ∷ vals) h))
      ]

  enrich_ema-Returns :
      (periods : List ℤ) → All IsPositive periods → Returns (enrich_ema lib c tf periods)
  unfolding enrich_ema
  enrich_ema-Returns periods h =
      let (price, e) = last_elem-some (closes c) (closes-ne c ne) in
      rw (e, enrich_ema)
        (Returns->>= (ema_values lib c tf periods []) _ (ema_values-Returns periods [] h) λ v. tt)

  enrich_bollinger-Returns :
      (period : ℤ) (std_dev : F) → Returns (enrich_bollinger lib c tf period std_dev)
  unfolding enrich_bollinger
  enrich_bollinger-Returns period std_dev =
      let (price, e) = last_elem-some (closes c) (closes-ne c ne) in
      elim (Option-cases (last_elem (lib.bands (closes c) period std_dev))) [
        | inl nothing ↦ rw (nothing, enrich_bollinger) tt
        | inr (band, got) ↦ rw (got, enrich_bollinger) (rw e tt)
      ]

  enrich_atr-Returns : (period : ℤ) → Returns (enrich_atr lib c tf period)
  unfolding enrich_atr
  enrich_atr-Returns period = let (b, e) = last_elem-some c ne in rw (e, enrich_atr) tt

  enrich_supertrend-Returns :
      (period : ℤ) (multiplier : F) → Returns (enrich_supertrend lib c tf period multiplier)
  unfolding enrich_supertrend
  enrich_supertrend-Returns period multiplier =
      elim (Option-cases (last_elem (lib.supertrend (hlc c) period multiplier))) [
        | inl nothing ↦ rw (nothing, enrich_supertrend) tt
        | inr (x, got) ↦ rw (got, enrich_supertrend) tt
      ]

  enrich_vwap-Returns : (period : ℤ) → Returns (enrich_vwap lib c tf period)
  unfolding enrich_vwap
  enrich_vwap-Returns period = let (b, e) = last_elem-some c ne in rw (e, enrich_vwap) tt

  enrich_obv-Returns : Returns (enrich_obv lib c tf)
  unfolding enrich_obv
  enrich_obv-Returns =
      let obv = lib.obv (volume_close c) in
      elim (Bool-cases (ltb (length obv) 20)) [
        | inl short ↦ rw (short, enrich_obv) tt
        | inr long ↦
            let (cur, e) = from_end-some 1 obv (omega arith) (ground arith) in
            let (prev, e') = from_end-some 10 obv (omega arith) (ground arith) in
            rw (long, enrich_obv) (rw e (rw e' tt))
      ]

  enrich_stoch_rsi-Returns : (r s k d : ℤ) → Returns (enrich_stoch_rsi lib c tf r s k d)
  unfolding enrich_stoch_rsi
  enrich_stoch_rsi-Returns r s k d =
      elim (Option-cases (last_elem (lib.stoch_rsi (closes c) r s k d))) [
        | inl nothing ↦ rw (nothing, enrich_stoch_rsi) tt
        | inr (x, got) ↦ rw (got, enrich_stoch_rsi) tt
      ]

  enrich_divergence-Returns : (period : ℤ) → Returns (enrich_divergence lib c tf period)
  unfolding enrich_divergence
  enrich_divergence-Returns period =
      elim (Bool-cases (last (lib.rsi_divergence (closes c) period lib.rsi) =? num 0)) [
        | inl nothing ↦ rw (nothing, enrich_divergence) tt
        | inr there ↦ rw (there, enrich_divergence) tt
      ]

  enrich_sr-Returns : (lookback : ℤ) → IsPositive lookback → Returns (enrich_sr c tf lib lookback)
  unfolding enrich_sr
  enrich_sr-Returns lookback p = on_window-Returns c lookback _ p λ window some_candle.
      let (price, e) = last_elem-some (closes window) (closes-ne window some_candle) in rw e tt

  enrich_profile-Returns :
      (bins lookback : ℤ)
      → f.eq (f.lit 0 0) (f.lit 0 0) ≡ true
      → IsPositive bins
      → IsPositive lookback
      → Returns (enrich_profile c tf bins lookback)
  unfolding enrich_profile
  enrich_profile-Returns (negsuc n) lookback z q p = absurd (ground arith)
  enrich_profile-Returns (pos n) lookback z q p =
      on_window-Returns c lookback _ p λ window some_candle.
        let (area, d) = compute_profile-done n window z (ground arith) in
        let (b, e) = last_elem-some c ne in rw (d, e) tt

  enrich_fib-Returns : (lookback : ℤ) → IsPositive lookback → Returns (enrich_fib c tf lookback)
  unfolding enrich_fib
  enrich_fib-Returns lookback p = on_window-Returns c lookback _ p λ window some_candle.
      let ((high, low), d) = find_swing-some window some_candle in
      let (b, e) = last_elem-some c ne in
      rw d (elim (Bool-cases (high ≤? low)) [ inl flat ↦ rw flat tt | inr wide ↦ rw (wide, e) tt ])

  enrich_context-Returns :
      (lookback : ℤ) → IsPositive lookback → Returns (enrich_context c tf lookback)
  unfolding enrich_context
  enrich_context-Returns lookback p = on_window-Returns c lookback _ p λ window some_candle.
      let (swing, d) = find_swing-some window some_candle in
      let (first, o) = first_open-some window some_candle in
      let (b, e) = last_elem-some c ne in rw (d, o, e) tt

  -- An indicator on some candle returns, if its window, bins and EMA periods are positive.
  pub enrich-Returns :
      (e : Enricher F)
      → f.eq (f.lit 0 0) (f.lit 0 0) ≡ true
      → IsSound e
      → Returns (enrich lib e c tf)
  unfolding enrich
  enrich-Returns (rsi period) z h = unfold enrich_rsi in tt
  enrich-Returns (macd fast slow signal) z h = unfold enrich_macd in tt
  enrich-Returns (ema periods) z h = enrich_ema-Returns periods h
  enrich-Returns (bollinger period std_dev) z h = enrich_bollinger-Returns period std_dev
  enrich-Returns (atr period) z h = enrich_atr-Returns period
  enrich-Returns (supertrend period multiplier) z h = enrich_supertrend-Returns period multiplier
  enrich-Returns (vwap period) z h = enrich_vwap-Returns period
  enrich-Returns obv z h = enrich_obv-Returns
  enrich-Returns (adx period) z h = unfold enrich_adx in tt
  enrich-Returns (stoch_rsi r s k d) z h = enrich_stoch_rsi-Returns r s k d
  enrich-Returns (divergence period) z h = enrich_divergence-Returns period
  enrich-Returns (support_resistance lookback) z h = enrich_sr-Returns lookback h
  enrich-Returns (volume_profile bins lookback) z (q, p) =
      enrich_profile-Returns bins lookback z q p
  enrich-Returns (fib_levels lookback) z h = enrich_fib-Returns lookback h
  enrich-Returns (price_context lookback) z h = enrich_context-Returns lookback h
