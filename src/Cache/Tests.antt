-- ===== src/Cache/Tests.antt =====
-- The tables of cache_test.go on the model, and the theorems at concrete inputs. A price is a number.
use tradingview_go.Common.{ℕ, ◌≤◌, ◌≡◌, refl, false, none, some, List, [], ◌∷◌, arith, length, pos}
use tradingview_go.Text.{codes, beq}
use tradingview_go.Types.{ChartData}
use tradingview_go.Cache.{
  clone, new_cache, find_id, remove_id, move_to_front, write_id, back, put_key, delete_key, get,
  put, drop_element, evict,
}
use tradingview_go.Cache.KeyText
use tradingview_go.Cache.Spec.{items}
use tradingview_go.Cache.Refine.{IsValid}
use tradingview_go.Cache.Run
use tradingview_go.Cache.Run.{Call, gets, puts, run, spec_run}

abbrev chart : ℕ → ChartData ℕ
chart n = record {
  symbol = codes "X";
  resolution = codes "1";
  candles = [];
  fetched_at = n;
  cached = false;
  latency_ms = 0;
}

-- TestCacheLRUEviction
abbrev three : List (Call ℕ)
three =
    puts (codes "A") (some (chart 1)) (pos 100) 0
    ∷ puts (codes "B") (some (chart 2)) (pos 100) 0
    ∷ puts (codes "C") (some (chart 3)) (pos 100) 0
    ∷ gets (codes "A") 1
    ∷ gets (codes "B") 1
    ∷ gets (codes "C") 1
    ∷ []

eviction : (run (new_cache 2) three).1 ≡ none ∷ some (clone (chart 2)) ∷ some (clone (chart 3)) ∷ []
unfolding run get put evict drop_element new_cache find_id remove_id move_to_front write_id back
    put_key delete_key beq
eviction = refl

run-new_cache_example :
    ((run (new_cache 2) three).1 ≡ (spec_run 2 [] three).1)
    × (items (run (new_cache 2) three).0 ≡ (spec_run 2 [] three).0)
    × IsValid (run (new_cache 2) three).0
    × (length (run (new_cache 2) three).0.ll ≤ 2)
run-new_cache_example = Run.run-new_cache 2 three

make_cache_key-injective_example :
    (codes "A|B" ≡ codes "A|B") × (codes "D" ≡ codes "D") × (pos 300 ≡ pos 300)
make_cache_key-injective_example =
    KeyText.make_cache_key-injective (codes "A|B") (codes "A|B") (codes "D") (codes "D") (pos 300)
      (pos 300) (omega arith) (omega arith) (omega arith) (omega arith) refl
