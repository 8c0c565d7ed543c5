-- ===== src/Core/Errors/Types.antt =====
-- The exceptions of backend/samfscon/core/errors.py.
use samfscon.Prelude.{ℕ, Option, String}
use samfscon.Prelude.Text.{Text}

-- `SamfsconError` and its subclasses
pub data ErrorClass : Type 0 where
  samfscon_error authentication_error session_expired permission_denied not_found conflict
        invalid_request constraint_violation upstream_unavailable operation_timeout not_configured :
      ErrorClass

-- `status_code` of a class
pub status_code : ErrorClass → ℕ
status_code samfscon_error = 500
status_code authentication_error = 401
status_code session_expired = 401
status_code permission_denied = 403
status_code not_found = 404
status_code conflict = 409
status_code invalid_request = 400
status_code constraint_violation = 400
status_code upstream_unavailable = 502
status_code operation_timeout = 504
status_code not_configured = 409

-- A line of a table: what is looked for, and what the error is made of.
pub record Entry : Type 0 where
  pub symbol : Text
  pub class : ErrorClass
  pub code : Text
  pub message : String
  pub hint : Option String

-- An error that is raised: `context` is the status in it, if there is one.
pub record SamfsconError : Type 0 where
  pub class : ErrorClass
  pub code : Text
  pub message : String
  pub hint : Option String
  pub detail : Option Text
  pub context : Option Text
