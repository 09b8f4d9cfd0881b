-- ===== src/Cmd/Cells.antt =====
-- What tradingview-fetch makes of a comma-separated list of resolutions.
use tradingview_go.Common.{
  ◌≡◌, ◌≢◌, refl, ◌∙◌, ap, true, false, List, [], ◌∷◌, ◌++◌, if◌then◌else◌, arith, map, All,
  Bool-cases, inl, inr,
}
use tradingview_go.Text.{Bytes, codes, beq, beq_iff, is_space, trim_space}
use tradingview_go.Text.Cut.{Lacks, split, join, split-join}
use tradingview_go.Text.Trim.{IsBlank, trim_space-pad}
use tradingview_go.Errors.{ok, err}
use tradingview_go.Search.{Response}
use tradingview_go.Client.{Env, new_client}
use tradingview_go.Client.Goroutines.{Goroutines, multi_of}
use tradingview_go.Cmd.Fetch.{
  Flags, printed, multi, keep_cells, split_csv, empty_config, fail_with, main,
}

-- A text with spaces on its two sides.
pub record Cell : Type 0 where
  pub left : Bytes
  pub text : Bytes
  pub right : Bytes

abbrev pub padded : Cell → Bytes
padded c = c.left ++ (c.text ++ c.right)

-- The text has no spaces of its own at its ends, and no comma.
pub record IsCell (c : Cell) : Type 0 where
  pub left : IsBlank c.left
  pub right : IsBlank c.right
  pub trimmed : trim_space c.text ≡ c.text
  pub no_comma : Lacks b',' c.text

-- The texts that are not empty.
abbrev pub nonempty : List Bytes → List Bytes
nonempty [] = []
nonempty (s ∷ texts) = let rest = nonempty texts in if beq s [] then rest else s ∷ rest

blank-Lacks : (s : Bytes) → IsBlank s → Lacks b',' s
unfolding is_space
blank-Lacks [] h = tt
blank-Lacks (c ∷ s) (b, h) = ((λ e. ground arith), blank-Lacks s h)

append-Lacks : (s t : Bytes) → Lacks b',' s → Lacks b',' t → Lacks b',' (s ++ t)
append-Lacks [] t h k = k
append-Lacks (c ∷ s) t (ne, h) k = (ne, append-Lacks s t h k)

padded-Lacks : (c : Cell) → IsCell c → Lacks b',' (padded c)
padded-Lacks c h =
    append-Lacks c.left (c.text ++ c.right) (blank-Lacks c.left h.left)
      (append-Lacks c.text c.right h.no_comma (blank-Lacks c.right h.right))

cells-Lacks : (cells : List Cell) → All IsCell cells → All (Lacks b',') (map padded cells)
cells-Lacks [] h = tt
cells-Lacks (c ∷ cells) (h, rest) = (padded-Lacks c h, cells-Lacks cells rest)

keep_cells-padded :
    (cells : List Cell)
    → All IsCell cells
    → keep_cells (map padded cells) ≡ nonempty (map (λ c. c.text) cells)
unfolding keep_cells
keep_cells-padded [] h = refl
keep_cells-padded (c ∷ cells) (h, rest) =
    let cut = trim_space-pad c.left c.text c.right h.left h.right ∙ h.trimmed in
    rw (cut, keep_cells-padded cells rest)
      (elim (Bool-cases (beq c.text [])) [ inl e ↦ rw e refl | inr e ↦ rw e refl ])

split_csv-join :
    (cells : List Cell)
    → All IsCell cells
    → split_csv (join b',' (map padded cells)) ≡ nonempty (map (λ c. c.text) cells)
unfolding split_csv
split_csv-join [] h = unfold split keep_cells trim_space beq in refl
split_csv-join (c ∷ cells) h =
    ap keep_cells (split-join b',' (padded c) (map padded cells) (cells-Lacks (c ∷ cells) h))
    ∙ keep_cells-padded (c ∷ cells) h

-- tradingview-fetch with a symbol, without a search and with a list of resolutions, which may have
-- spaces around each and empty entries, fetches exactly the resolutions of the list, in its order and
-- with the bars of the flag, and prints what FetchMulti returns or fails with its error.
pub main-resolutions :
    {F : Type 0} (flags : Flags) (http : List (Bytes × Bytes) → Response) (g : Goroutines F)
    (env : Env F) (cells : List Cell)
    → flags.search ≡ []
    → flags.symbol ≢ []
    → flags.resolutions ≢ []
    → flags.resolutions ≡ join b',' (map padded cells)
    → All IsCell cells
    → main flags http g env
      ≡ (elim (multi_of
          (new_client empty_config)
          g
          flags.symbol
          (nonempty (map (λ c. c.text) cells))
          flags.bars) [ err e ↦ fail_with (codes "fetch_multi") e | ok out ↦ printed (multi out) ])
unfolding main
main-resolutions flags http g env cells no_search symbol some_there is h =
    let cut = ap split_csv is ∙ split_csv-join cells h in
    let a : beq flags.search [] ≡ true = (beq_iff flags.search []).1 no_search in
    let b : beq flags.symbol [] ≡ false = ground (arith, beq_iff flags.symbol []) in
    let c : beq flags.resolutions [] ≡ false = ground (arith, beq_iff flags.resolutions []) in
    rw (a, main) (rw b (rw c (rw cut refl)))
