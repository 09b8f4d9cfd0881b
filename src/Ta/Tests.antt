-- ===== src/Ta/Tests.antt =====
-- The theorems on the indicators' names at floats that are numbers.
pub mod Sorting
pub mod Numbers
use tradingview_go.Common.{ℕ, ◌≡◌, refl, true, some, [], ◌∷◌, ltb, pos, All}
use tradingview_go.Text.{codes, beq}
use tradingview_go.Symbols.{lookup, member}
use tradingview_go.Ta.{
  bollinger, enricher_name, default_pipeline, indicator_names, cases, enricher_for, filter_pipeline,
  int_or, float_or,
}
use tradingview_go.Ta.Names
use tradingview_go.Ta.Names.{zero_params}

enricher_for-filter_pipeline_example :
    All
      (λ e.
        (enricher_for 2 3 (ltb 0) (enricher_name e) (zero_params 2 3 (ltb 0) 0) ≡ some e)
        × (filter_pipeline (default_pipeline 2 3) (enricher_name e ∷ []) ≡ e ∷ []))
      (default_pipeline 2 3)
enricher_for-filter_pipeline_example = Names.enricher_for-filter_pipeline 2 3 (ltb 0) 0 refl
