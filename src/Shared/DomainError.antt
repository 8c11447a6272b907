-- ===== src/Shared/DomainError.antt =====
-- src/shared/domain/domain-error.ts and the error classes that the modules derive from it.
use wedding_planner_backend.Prelude.{ℕ}

-- One constructor per base class, with the HTTP status that the class fixes.
pub data DomainError : Type 0 where
  not_found_error forbidden_error unauthorized_error conflict_error unprocessable_error :
      DomainError

unfoldable pub http_status : DomainError → ℕ
http_status not_found_error = 404
http_status forbidden_error = 403
http_status unauthorized_error = 401
http_status conflict_error = 409
http_status unprocessable_error = 422
