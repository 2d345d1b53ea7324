-- ===== src/Errors.antt =====
-- khazina/internal/payment/errors.go, and the errors of the libraries that the service wraps. An
-- error's text is kept as the arguments of its format, since the program only logs it.
use saftaja.Prelude.{ℕ, String, Bool, true, false, Option, none, some}

pub data EntityType : Type 0 where
  session invoice : EntityType

pub data Error : Type 0 where
  -- `pgx.ErrNoRows`, which wraps `sql.ErrNoRows`
  no_rows : Error
  -- any other error of the driver: a broken connection, or the constraint that refused a row
  db_failure : String → Error
  -- `errors.New`, and `fmt.Errorf` with no `%w`
  plain : String → Error
  -- `fmt.Errorf("text: %w", err)`
  wrapped : String → Error → Error
  -- the two errors of `decodeResponse`: the status got, the status expected, and what came
  unexpected_status : ℕ → ℕ → String → Error
  api_error : ℕ → ℕ → Error → Error
  invalid_state_transition : EntityType → String → String → Error
  session_expired : String → Error
  invoice_already_paid : String → Error
  session_invoice_mismatch : String → String → Error
  gateway : String → Error → Error
  invoice_not_found : String → Error

-- `errors.Unwrap`, for the errors that wrap another one.
abbrev pub unwrap : Error → Option Error
unwrap (Error.wrapped _ e) = some e
unwrap (Error.api_error _ _ e) = some e
unwrap (Error.gateway _ e) = some e
unwrap _ = none

-- `errors.Is(err, sql.ErrNoRows)`: somewhere down the chain.
abbrev pub is_no_rows : Error → Bool
is_no_rows Error.no_rows = true
is_no_rows (Error.wrapped _ e) = is_no_rows e
is_no_rows (Error.api_error _ _ e) = is_no_rows e
is_no_rows (Error.gateway _ e) = is_no_rows e
is_no_rows _ = false
