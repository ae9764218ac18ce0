-- ===== src/Errors.antt =====
-- Error values and how a Go function ends: pkg/errs/types.go, the error types of api/session.go and
-- pkg/sqlutil/tx.go, and the wrappers of github.com/pkg/errors that the program calls.
use gxydb_api.Base.{ℕ, Bool, true, false, String, Option, none, some}

-- `protocol` and `protocol_of` are `*ProtocolError` without and with a cause. `tx_error` is
-- `*TxError`: it has `Cause`, but no `Unwrap`, so `errors.As` does not look behind it. `http_error` is
-- `*HttpError` of pkg/httputil/errors.go, with its code. `wrap` and `with_stack` are those of pkg/errors, which do unwrap. `foreign` is any other error.
pub data Error : Type 0 where
  protocol : String → Error
  protocol_of : Error → String → Error
  tx_error : Error → String → Error
  wrap : Error → String → Error
  with_stack : Error → Error
  no_rows : Error
  admin_response : ℕ → Error
  http_error : ℕ → Error
  foreign : String → Error

-- `errors.As(err, &pErr)` for a `*ProtocolError`.
unfoldable pub is_protocol : Error → Bool
is_protocol (protocol _) = true
is_protocol (protocol_of _ _) = true
is_protocol (wrap e _) = is_protocol e
is_protocol (with_stack e) = is_protocol e
is_protocol _ = false

-- `errors.Is(err, sql.ErrNoRows)`.
unfoldable pub is_no_rows : Error → Bool
is_no_rows no_rows = true
is_no_rows (wrap e _) = is_no_rows e
is_no_rows (with_stack e) = is_no_rows e
is_no_rows _ = false

-- `errors.As(err, &hErr)` for a `*HttpError`, and its code.
unfoldable pub http_status : Error → Option ℕ
http_status (http_error code) = some code
http_status (wrap e _) = http_status e
http_status (with_stack e) = http_status e
http_status _ = none

-- How a function ends: with a value, an error value, or a panic.
pub data Outcome {ℓ} (A : Type ℓ) : Type ℓ where
  ok : A → Outcome A
  err : Error → Outcome A
  panic : String → Outcome A
