-- ===== src/Conn/Dial.antt =====
-- conn.go, dial, dialOnce and authenticate: three attempts with a wait in between.
use mathlib.Core.Path.{subst}
use tradingview_go.Common.{
  ℕ, zero, suc, ◌<◌, ◌+◌, ◌≡◌, refl, sym, ◌⊎◌, inl, inr, Option, none, some, List, [], ◌∷◌, ◌++◌,
  arith, leb, ◌&&◌, if◌then◌else◌, Option-cases, ltb,
}
use tradingview_go.Text.{Bytes, codes, index_of}
use tradingview_go.Errors.{
  Error, Result, ok, err, new_err, upstream_timeout, upstream_protocol, upstream_http, Result-cases,
}
use tradingview_go.Frames.{Message, text}
use tradingview_go.Conn.{Outside, send}

abbrev pub set_auth_token : Bytes → Message
set_auth_token token = record { method = codes "set_auth_token"; params = text token ∷ [] }

-- What the network gives a handshake: the error of the dialer, and the server's first text or the
-- error of reading it. `conn` is the new connection.
pub record Handshake (F : Type 0) : Type 0 where
  pub failed : Option Bytes
  pub hello : Bytes ⊎ Bytes
  pub conn : ℕ
  pub out : Outside F

-- The verb %.80s with another number: so many runes of a text in UTF-8, whose bytes from 128 to 191
-- continue a rune.
unfoldable pub take_runes : ℕ → Bytes → Bytes
take_runes n [] = []
take_runes zero (c ∷ s) =
    let rest = take_runes zero s in if leb 128 c && ltb c 192 then c ∷ rest else []
take_runes (suc n) (c ∷ s) =
    let same = take_runes (suc n) s in
    let next = take_runes n s in if leb 128 c && ltb c 192 then c ∷ same else c ∷ next

module _ {F : Type 0} where
  -- The error that authenticate returns, if any.
  unfoldable pub authenticate : Handshake F → Bytes → Option Error
  authenticate h token = elim h.hello [
    | inl cause ↦ some (new_err upstream_protocol (codes "read hello") (some cause))
    | inr hello ↦ elim (index_of (codes "~m~") hello) [
      | none ↦
          some (new_err upstream_protocol (codes "unexpected hello: " ++ take_runes 80 hello) none)
      | some i ↦ elim (send h.out (set_auth_token token) []).0 [
        | some cause ↦ some (new_err upstream_protocol (codes "send auth") (some cause))
        | none ↦ none
      ]
    ]
  ]

  -- dialOnce, with the connections that it closes.
  unfoldable pub dial_once : Handshake F → Bytes → Result ℕ × List ℕ
  dial_once h token = elim h.failed [
    | some cause ↦ (err (new_err upstream_http (codes "websocket dial failed") (some cause)), [])
    | none ↦ elim (authenticate h token) [ some e ↦ (err e, h.conn ∷ []) | none ↦ (ok h.conn, []) ]
  ]

  -- The loop of dial: the attempts that are left, the number of the next, and `lastErr`. `waits` is the
  -- context's error where it ends the wait before an attempt. The result `none` is `(nil, nil)`.
  unfoldable pub dial_loop :
      (ℕ → Option Bytes)
      → (ℕ → Handshake F)
      → Bytes
      → ℕ
      → ℕ
      → Option Error
      → Option (Result ℕ) × List ℕ
  dial_loop waits shakes token zero attempt last =
      (elim last [ none ↦ none | some e ↦ some (err e) ], [])
  dial_loop waits shakes token (suc left) attempt last =
      let (res, shut) = dial_once (shakes attempt) token in
      let tried : Option (Result ℕ) × List ℕ = elim res [
        | ok c ↦ (some (ok c), shut)
        | err e ↦
            let (final, others) = dial_loop waits shakes token left (suc attempt) (some e) in
            (final, shut ++ others)
      ] in
      elim (if ltb 0 attempt then waits attempt else none) [
        | some cause ↦
            (some (err (new_err upstream_timeout (codes "dial canceled") (some cause))), [])
        | none ↦ tried
      ]

  unfoldable pub dial : (ℕ → Option Bytes) → (ℕ → Handshake F) → Bytes → Option (Result ℕ) × List ℕ
  unfolding dial_loop
  dial waits shakes token = dial_loop waits shakes token 3 0 none

  module _ (waits : ℕ → Option Bytes) (shakes : ℕ → Handshake F) (token : Bytes) where
    -- Attempt `i` begins: there is no wait before the first, and a later wait is not cut short.
    abbrev pub Begins : ℕ → Type 0
    Begins zero = Unit
    Begins (suc i) = waits (suc i) ≡ none

    -- Attempt `i` begins and fails with this error.
    abbrev pub FailsWith : ℕ → Error → Type 0
    FailsWith i e = Begins i × ((dial_once (shakes i) token).0 ≡ err e)

    -- The attempts before `i` fail.
    abbrev pub AllFail : ℕ → Type 0
    AllFail zero = Unit
    AllFail (suc i) = AllFail i × ((e : Error) × FailsWith i e)

    -- The context's error cuts the wait before attempt `i` short.
    abbrev pub IsCut : ℕ → Bytes → Type 0
    IsCut zero cause = ⊥
    IsCut (suc i) cause = waits (suc i) ≡ some cause

    -- What up to `suc n` attempts come to.
    abbrev pub Dialed : ℕ → Option (Result ℕ) → Type 0
    Dialed n r =
        ((i : ℕ) × (i < suc n)
          × (c : ℕ) × AllFail i
          × Begins i
          × ((dial_once (shakes i) token).0 ≡ ok c)
          × (r ≡ some (ok c)))
        ⊎ ((i : ℕ) × (i < suc n)
            × (cause : Bytes) × AllFail i
            × IsCut i cause
            × (r ≡ some (err (new_err upstream_timeout (codes "dial canceled") (some cause)))))
        ⊎ (AllFail n × ((e : Error) × FailsWith n e × (r ≡ some (err e))))

    -- What the loop has as `lastErr` before attempt `i`.
    abbrev IsLast : ℕ → Option Error → Type 0
    IsLast zero last = Unit
    IsLast (suc i) last = (e : Error) × FailsWith i e × (last ≡ some e)

    begins : (i : ℕ) → (if ltb 0 i then waits i else none) ≡ none → Begins i
    begins zero h = tt
    begins (suc i) h = ground arith

    IsCut-before :
        (i : ℕ) {cause : Bytes} → (if ltb 0 i then waits i else none) ≡ some cause → IsCut i cause
    IsCut-before zero h = absurd (ground arith)
    IsCut-before (suc i) h = ground arith

    dial_loop-Dialed :
        (n left i : ℕ) (last : Option Error)
        → left + i ≡ suc n
        → AllFail i
        → IsLast i last
        → Dialed n (dial_loop waits shakes token left i last).0
    unfolding dial_loop
    dial_loop-Dialed n zero zero last total failed at = absurd (omega arith)
    dial_loop-Dialed n zero (suc i) last total failed (e, fails, is) =
        let same : i ≡ n = omega arith in
        inr (
          inr
            (subst AllFail same failed.0, (e, subst (λ j. FailsWith j e) same fails, ground arith)))
    dial_loop-Dialed n (suc left) i last total failed at =
        elim (Option-cases (if ltb 0 i then waits i else none)) [
          | inr (cause, w) ↦
              inr (inl (i, omega arith, cause, failed, IsCut-before i w, ground arith))
          | inl w ↦ elim (Result-cases (dial_once (shakes i) token).0) [
            | inl (c, r) ↦ inl (i, omega arith, c, failed, begins i w, r, ground arith)
            | inr (x, r) ↦
                let rest =
                  dial_loop-Dialed n left (suc i) (some x) (omega arith)
                    (failed, (x, (begins i w, r))) (x, (begins i w, r), refl) in
                let same : (dial_loop waits shakes token (suc left) i last).0
                    ≡ (dial_loop waits shakes token left (suc i) (some x)).0 =
                  ground arith in
                subst (Dialed n) (sym same) rest
          ]
        ]

    -- dial makes up to three attempts, the next only after one that failed. It returns the connection
    -- of the first that does not fail; the error of the third if all three fail; and where the
    -- context cuts a wait between two attempts short, an error with its cause, and no later attempt is
    -- made. So it never returns a nil connection without an error.
    pub dial-Dialed : Dialed 2 (dial waits shakes token).0
    unfolding dial
    dial-Dialed = dial_loop-Dialed 2 3 0 none refl tt tt
