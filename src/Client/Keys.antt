-- ===== src/Client/Keys.antt =====
-- The cache keys of Fetch: requests that have passed its checks share a key only if they are the same.
use tradingview_go.Common.{
  ℕ, ◌≡◌, refl, Bool, true, false, [], ◌∷◌, arith, if◌then◌else◌, ◌==◌, ℤ, pos, negsuc, leb_ℤ,
  ltb_ℤ,
}
use tradingview_go.Text.{Bytes}
use tradingview_go.Text.Cut.{Lacks}
use tradingview_go.Text.Print.{IsInt}
use tradingview_go.Symbols.Laws.{wire_forms, check_keys, check_keys_sound}
use tradingview_go.Cache.KeyText.{make_cache_key-injective}
use tradingview_go.Client.{Request, key_of, max_bars}
use tradingview_go.Client.Checks.{IsNormal}

lacks : ℕ → Bytes → Bool
lacks sep [] = true
lacks sep (c ∷ s) = if c == sep then false else lacks sep s

lacks-Lacks : (sep : ℕ) (s : Bytes) → lacks sep s ≡ true → Lacks sep s
unfolding lacks
lacks-Lacks sep [] h = tt
lacks-Lacks sep (c ∷ s) h = ground (arith, lacks-Lacks sep s)

wire_lack : check_keys (lacks b'|') wire_forms ≡ true
unfolding check_keys lacks
wire_lack = refl

bounds-IsInt : (n : ℤ) → leb_ℤ n (pos 0) ≡ false → ltb_ℤ max_bars n ≡ false → IsInt n
bounds-IsInt (pos n) some_bars few_bars = ground arith
bounds-IsInt (negsuc n) some_bars few_bars = absurd (ground arith)

IsNormal-Lacks : (q : Request) → IsNormal q → Lacks b'|' q.resolution
IsNormal-Lacks q h =
    lacks-Lacks b'|' q.resolution
      (check_keys_sound (lacks b'|') q.resolution wire_forms wire_lack h.wire)

-- Two requests in normal form with one key are the same.
pub key_of-injective : (q r : Request) → IsNormal q → IsNormal r → key_of q ≡ key_of r → q ≡ r
key_of-injective q r hq hr e =
    let (symbol_is, resolution_is, bars_is) =
      make_cache_key-injective q.symbol r.symbol q.resolution r.resolution q.bars r.bars
        (IsNormal-Lacks q hq) (IsNormal-Lacks r hr) (bounds-IsInt q.bars hq.some_bars hq.few_bars)
        (bounds-IsInt r.bars hr.some_bars hr.few_bars) e in
    ground arith
