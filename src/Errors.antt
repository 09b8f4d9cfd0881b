-- ===== src/Errors.antt =====
-- errors.go: the structured error with its stable codes. A wrapped error is known by its text.
use tradingview_go.Common.{◌⊎◌, inl, inr, ◌≡◌, refl, Option, none, some, [], ◌++◌}
use tradingview_go.Text.{Bytes, codes}

pub data Code : Type 0 where
  symbol_unknown invalid_resolution invalid_bars upstream_timeout : Code
  upstream_protocol upstream_http rate_limited closed : Code

-- The constants' strings.
unfoldable pub code_text : Code → Bytes
code_text symbol_unknown = codes "symbol_unknown"
code_text invalid_resolution = codes "invalid_resolution"
code_text invalid_bars = codes "invalid_bars"
code_text upstream_timeout = codes "upstream_timeout"
code_text upstream_protocol = codes "upstream_protocol"
code_text upstream_http = codes "upstream_http"
code_text rate_limited = codes "rate_limited"
code_text closed = codes "closed"

pub record Error : Type 0 where
  pub code : Code
  pub message : Bytes
  pub cause : Option Bytes

-- `(*Error).Error` on a non-nil receiver
unfoldable pub error_text : Error → Bytes
unfolding code_text
error_text e = elim e.cause [
  | some cause ↦
      codes "tradingview: "
      ++ (code_text e.code ++ (codes ": " ++ (e.message ++ (codes ": " ++ cause))))
  | none ↦ codes "tradingview: " ++ (code_text e.code ++ (codes ": " ++ e.message))
]

-- `(*Error).Error`; `none` is the nil receiver.
unfoldable pub error_string : Option Error → Bytes
unfolding error_text
error_string none = []
error_string (some e) = error_text e

-- `(*Error).Unwrap`
unfoldable pub unwrap : Error → Option Bytes
unwrap e = e.cause

abbrev pub new_err : Code → Bytes → Option Bytes → Error
new_err code message cause = record { code = code; message = message; cause = cause }

-- What `(value, error)` holds.
pub data Result {ℓ} (A : Type ℓ) : Type ℓ where
  ok : A → Result A
  err : Error → Result A

pub Result-cases {ℓ} :
    {A : Type ℓ} (r : Result A) → ((a : A) × (r ≡ ok a)) ⊎ ((e : Error) × (r ≡ err e))
Result-cases (ok a) = inl (a, refl)
Result-cases (err e) = inr (e, refl)
