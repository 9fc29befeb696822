-- ===== src/ControlPlane/Lease.antt =====
-- apps/control-plane-go/internal/lease/lease.go: the types of a Lease, and the errors that callers
-- see.
use agent_sandbox_platform.Base.{ℕ, String, Bytes, Bool}

pub data Status : Type 0 where
  active released expired : Status

pub record Scope : Type 0 where
  pub consumer_id : Bytes
  pub subject_id : Bytes

pub record Record : Type 0 where
  pub id : Bytes
  pub pool : Bytes
  pub status : Status
  pub created_at : ℕ
  pub expires_at : ℕ
  pub last_used_at : ℕ

pub record AcquireResult : Type 0 where
  pub lease : Record
  pub replayed : Bool

-- Any error of the services: a `lease.Error`, a cancelled or timed-out context, or another, which
-- callers see as an internal error.
pub data Error : Type 0 where
  typed : ℕ → String → String → Error
  cancelled : Error
  other : String → Error

-- `ErrorDetails`
unfoldable pub error_details : Error → ℕ × String × String
error_details (typed status code message) = (status, code, message)
error_details cancelled = (500, "INTERNAL_ERROR", "Internal server error")
error_details (other message) = (500, "INTERNAL_ERROR", "Internal server error")

abbrev pub not_found : Error
not_found = typed 404 "LEASE_NOT_FOUND" "Lease not found"

abbrev pub aborted : Error
aborted = typed 408 "ABORTED" "File transfer was aborted"
