-- ===== src/Search/Firsts.antt =====
-- The loop of SearchSymbols against its specification: the first match of each key, in order, up to
-- the limit.
use tradingview_go.Common.{
  ◌⊎◌, ◌≢◌, ◌==◌, take_of_length-le, ℕ, suc, ◌-◌, ◌<◌, ◌≡◌, refl, sym, ap, true, false, List, [],
  ◌∷◌, ◌++◌, map, append-nil, append_assoc, arith, leb, if◌then◌else◌, ℤ, pos, negsuc, ltb_ℤ,
  pos_part, length, length-append, take, Bool-cases, inl, inr,
}
use tradingview_go.Text.{trim_space, Bytes, beq, beq_iff}
use tradingview_go.Types.{SymbolMatch, SearchOptions}
use tradingview_go.Errors.{ok}
use tradingview_go.Symbols.{member}
use tradingview_go.Search.{
  search_symbols, search_params, Response, no_request, unanswered, answered, RawSymbolMatch,
  match_of, match_key, is_full, scan,
}

-- Without the matches of these keys.
abbrev pub drop_seen : List Bytes → List SymbolMatch → List SymbolMatch
drop_seen seen [] = []
drop_seen seen (m ∷ l) =
    let rest = drop_seen seen l in if member (match_key m) seen then rest else m ∷ rest

-- The first match of each key.
abbrev pub firsts : List SymbolMatch → List SymbolMatch
firsts [] = []
firsts (m ∷ l) = m ∷ drop_seen (match_key m ∷ []) (firsts l)

-- Up to the limit, where there is one.
abbrev pub limited : ℤ → List SymbolMatch → List SymbolMatch
limited limit l = if ltb_ℤ (pos 0) limit then take (pos_part limit) l else l

drop_seen-drop_seen :
    (k : Bytes) (seen : List Bytes) (l : List SymbolMatch)
    → drop_seen seen (drop_seen (k ∷ []) l) ≡ drop_seen (k ∷ seen) l
unfolding member
drop_seen-drop_seen k seen [] = refl
drop_seen-drop_seen k seen (m ∷ l) = ground (arith, drop_seen-drop_seen k seen l)

drop_seen-member :
    (k : Bytes) (seen : List Bytes) (l : List SymbolMatch)
    → member k seen ≡ true
    → drop_seen (k ∷ seen) l ≡ drop_seen seen l
unfolding member
drop_seen-member k seen [] h = refl
drop_seen-member k seen (m ∷ l) h =
    ground (arith, beq_iff k (match_key m), drop_seen-member k seen l h)

drop_seen-nil : (l : List SymbolMatch) → drop_seen [] l ≡ l
unfolding member
drop_seen-nil [] = refl
drop_seen-nil (m ∷ l) = ap (λ l. m ∷ l) (drop_seen-nil l)

drop_seen-firsts :
    (seen : List Bytes) (m : SymbolMatch) (l : List SymbolMatch)
    → drop_seen seen (firsts (m ∷ l)) ≡ (
        if member (match_key m) seen
        then drop_seen seen (firsts l)
        else m ∷ drop_seen (match_key m ∷ seen) (firsts l))
drop_seen-firsts seen m l =
    let k = match_key m in
    let both = drop_seen-drop_seen k seen (firsts l) in
    elim (Bool-cases (member k seen)) [
      | inl h ↦ ground (arith, both, drop_seen-member k seen (firsts l) h)
      | inr h ↦ ground (arith, both)
    ]

module _ (limit : ℤ) where
  abbrev left_over : List RawSymbolMatch → List Bytes → List SymbolMatch
  left_over raw seen = drop_seen seen (firsts (map match_of raw))

  scan-unlimited :
      (raw : List RawSymbolMatch) (seen : List Bytes) (found : List SymbolMatch)
      → ltb_ℤ (pos 0) limit ≡ false
      → scan limit raw seen found ≡ found ++ left_over raw seen
  unfolding scan is_full
  scan-unlimited [] seen found h = sym (append-nil found)
  scan-unlimited (r ∷ rest) seen found h =
      let m = match_of r in
      let step = drop_seen-firsts seen m (map match_of rest) in
      elim (Bool-cases (member (match_key m) seen)) [
        | inl old ↦ ground (arith, step, scan-unlimited rest seen found h)
        | inr new ↦ ground (
          arith,
          step,
          scan-unlimited rest (match_key m ∷ seen) (found ++ m ∷ []) h,
          append_assoc found (m ∷ []) (left_over rest (match_key m ∷ seen)),
        )
      ]

  scan-limited :
      (raw : List RawSymbolMatch) (seen : List Bytes) (found : List SymbolMatch)
      → ltb_ℤ (pos 0) limit ≡ true
      → length found < pos_part limit
      → scan limit raw seen found
        ≡ found ++ take (pos_part limit - length found) (left_over raw seen)
  unfolding scan is_full
  scan-limited [] seen found h lt = ground (
    arith,
    take_of_length-le {A = SymbolMatch} (pos_part limit - length found) [] (omega arith),
    append-nil found,
  )
  scan-limited (r ∷ rest) seen found h lt =
      let m = match_of r in
      let step = drop_seen-firsts seen m (map match_of rest) in
      let longer : length (found ++ m ∷ []) ≡ suc (length found) =
        omega (arith, length-append found (m ∷ [])) in
      let more = left_over rest (match_key m ∷ seen) in
      let n = pos_part limit - suc (length found) in
      let one_off : pos_part limit - length found ≡ suc n = omega arith in
      let cut : take (pos_part limit - length found) (m ∷ more) ≡ m ∷ take n more =
        ap (λ k. take k (m ∷ more)) one_off in
      elim (Bool-cases (member (match_key m) seen)) [
        | inl old ↦ ground (arith, step, scan-limited rest seen found h lt)
        | inr new ↦ elim (Bool-cases (leb (pos_part limit) (suc (length found)))) [
          | inl full ↦
              let spent : n ≡ 0 = ground arith in
              let none_left : take n more ≡ [] = ap (λ k. take k more) spent in
              ground (arith, step, longer, cut, none_left)
          | inr room ↦
              let less : pos_part limit - length (found ++ m ∷ []) ≡ n = omega arith in
              let later =
                scan-limited rest (match_key m ∷ seen) (found ++ m ∷ []) h (ground arith) in
              let same = ap (λ k. (found ++ m ∷ []) ++ take k more) less in
              let flat = append_assoc found (m ∷ []) (take n more) in
              ground (arith, step, longer, cut, later, same, flat)
        ]
      ]

Response-cases :
    (r : Response)
    → ((cause : Bytes) × (r ≡ no_request cause))
      ⊎ ((cause : Bytes) × (r ≡ unanswered cause))
      ⊎ ((status : ℕ) × (body : Bytes) × (decoded : Bytes ⊎ List RawSymbolMatch) × (r
            ≡ answered status body decoded))
Response-cases (no_request cause) = inl (cause, refl)
Response-cases (unanswered cause) = inr (inl (cause, refl))
Response-cases (answered status body decoded) = inr (inr (status, body, decoded, refl))

-- The loop of SearchSymbols keeps the first match of each key, in the order of the answer, up to the
-- limit if that is positive.
pub scan-firsts :
    (limit : ℤ) (raw : List RawSymbolMatch)
    → scan limit raw [] [] ≡ limited limit (firsts (map match_of raw))
scan-firsts limit raw =
    let all = drop_seen-nil (firsts (map match_of raw)) in
    elim (Bool-cases (ltb_ℤ (pos 0) limit)) [
      | inl h ↦ ground (arith, all, scan-limited limit raw [] [] h (positive limit h))
      | inr h ↦ ground (arith, all, scan-unlimited limit raw [] [] h)
    ]
  where
    positive : (limit : ℤ) → ltb_ℤ (pos 0) limit ≡ true → 0 < pos_part limit
    positive (pos n) h = ground arith
    positive (negsuc n) h = ground arith

module _ (http : List (Bytes × Bytes) → Response) (query : Bytes) (opts : SearchOptions) where
  -- A SearchSymbols that succeeds has asked for a text, has got an answer with status 200 and a list of
  -- matches, and returns the first match of each key, in the order of the answer, up to the limit if
  -- that is positive.
  pub search_symbols-ok :
      {found : List SymbolMatch}
      → search_symbols http query opts ≡ ok found
      → (trim_space query ≢ [])
        × (body : Bytes) × (raw : List RawSymbolMatch) × (http
              (search_params (trim_space query) opts)
            ≡ answered 200 body (inr raw))
        × (found ≡ limited opts.limit (firsts (map match_of raw)))
  unfolding search_symbols
  search_symbols-ok {found} e = elim (Bool-cases (beq (trim_space query) [])) [
    | inl nothing ↦ absurd (ground arith)
    | inr asked ↦ elim (Response-cases (http (search_params (trim_space query) opts))) [
      | inl (cause, r) ↦ absurd (ground arith)
      | inr (inl (cause, r)) ↦ absurd (ground arith)
      | inr (inr (status, body, inl cause, r)) ↦ elim (Bool-cases (status == 200)) [
        | inl fine ↦ absurd (ground arith)
        | inr bad ↦ absurd (ground arith)
      ]
      | inr (inr (status, body, inr raw, r)) ↦ elim (Bool-cases (status == 200)) [
        | inr bad ↦ absurd (ground arith)
        | inl fine ↦
            let is : status ≡ 200 = ground arith in
            let got : ok (scan opts.limit raw [] []) ≡ ok found = ground arith in
            (
              ground (arith, beq_iff (trim_space query) []),
              body,
              raw,
              ground arith,
              ground (arith, scan-firsts opts.limit raw),
            )
      ]
    ]
  ]
