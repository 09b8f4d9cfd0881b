-- ===== src/Cache/KeyText.antt =====
-- The text of a cache key tells the request: makeCacheKey is injective where resolutions hold no `|`.
use tradingview_go.Text.Cut.{Lacks, last_sep}
use tradingview_go.Common.{◌≡◌, sym, ◌∙◌, ◌∷◌, ◌++◌, arith, append_assoc, ℤ}
use tradingview_go.Text.{Bytes}
use tradingview_go.Text.Decimal.{format_int}
use tradingview_go.Text.Print.{IsInt, format_int-Lacks, format_int-injective}
use tradingview_go.Cache.{make_cache_key}

-- Two requests share a cache key only if symbol, resolution and bars are the same, where the
-- resolutions hold no `|` and the bars are 64-bit ints. The symbols may hold any bytes.
pub make_cache_key-injective :
    (s t r q : Bytes) (m n : ℤ)
    → Lacks b'|' r
    → Lacks b'|' q
    → IsInt m
    → IsInt n
    → make_cache_key s r m ≡ make_cache_key t q n
    → (s ≡ t) × (r ≡ q) × (m ≡ n)
unfolding make_cache_key
make_cache_key-injective s t r q m n hr hq hm hn e =
    let regroup = λ (s r : Bytes) (m : ℤ). append_assoc s (b'|' ∷ r) (b'|' ∷ format_int m) in
    let (front, bars) =
      last_sep b'|' (s ++ b'|' ∷ r) (t ++ b'|' ∷ q) (format_int m) (format_int n)
        (format_int-Lacks b'|' (omega arith) m) (format_int-Lacks b'|' (omega arith) n)
        (regroup s r m ∙ (e ∙ sym (regroup t q n))) in
    let (symbol, resolution) = last_sep b'|' s t r q hr hq front in
    (symbol, resolution, format_int-injective m n hm hn bars)
