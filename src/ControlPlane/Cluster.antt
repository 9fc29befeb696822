-- ===== src/ControlPlane/Cluster.antt =====
-- apps/control-plane-go/internal/backend/kubernetes: what the backend uses of Kubernetes, of the clock
-- and of the random reader, as an environment over an unknown `World`; clients.go only passes the
-- calls on. Reading changes nothing, and nothing else changes the world while one call of the backend
-- runs, except where `waiting` and `poll` say so.
use agent_sandbox_platform.Base.{
  ℕ, Bool, Option, none, some, List, [], Bytes, String, bytes_eq, ◌≡◌, arith,
}
use agent_sandbox_platform.Base.Dict.{Dict, lookup}
use agent_sandbox_platform.Base.Int.{ℤ}
use agent_sandbox_platform.Base.Result.{Result, ok, err}
use agent_sandbox_platform.ControlPlane.Cursors.{Packages}
use agent_sandbox_platform.ControlPlane.Lease.{Error, other}
use agent_sandbox_platform.ControlPlane.Transfers.{Action, TransferManager}

-- What the backend reads of a SandboxClaim. `sandbox_name` is `status.sandbox.name`, empty where there
-- is none; `deleting` says that there is a deletion timestamp.
pub record Claim : Type 0 where
  pub name : Bytes
  pub deleting : Bool
  pub labels : Dict Bytes Bytes
  pub annotations : Dict Bytes Bytes
  pub sandbox_name : Bytes
  pub warm_pool_name : Bytes
  pub shutdown_time : Bytes

pub record ClaimList : Type 0 where
  pub items : List Claim
  pub continue : Bytes

pub record Pod : Type 0 where
  pub runtime_class_name : Option Bytes
  pub containers : List Bytes

-- `status.readyReplicas` and `spec.replicas`, where they are integers.
pub record WarmPool : Type 0 where
  pub ready_replicas : Option ℤ
  pub replicas : Option ℤ

-- An error of the API server: what is asked for is not there, a list's continuation is too old, or
-- another.
pub data ApiError : Type 0 where
  absent : ApiError
  expired : ApiError
  failed : String → ApiError

-- How a command in a Pod ended: with its exit status, by a cancelled or timed-out context, or by
-- another error.
pub data RunEnd : Type 0 where
  exited : ℕ → RunEnd
  stopped : RunEnd
  broken : String → RunEnd

pub record RunOutcome : Type 0 where
  pub stdout_chunks : List Bytes
  pub stderr_chunks : List Bytes
  pub end_of_run : RunEnd

pub record PodTarget : Type 0 where
  pub pod : Bytes
  pub container : Bytes

pub record Environment (World : Type 0) : Type 0 where
  pub packages : Packages
  -- `time.RFC3339Nano`
  pub format_time : ℕ → Bytes
  pub parse_time : Bytes → Option ℕ
  pub now : World → ℕ
  -- 16 bytes of `crypto/rand`.
  pub random : World → Bytes × World
  -- A nonce for a cursor, of the same reader.
  pub nonce : World → Bytes × World
  pub get_claim : World → Bytes → Result ApiError Claim
  -- The labels selected, the limit, where 0 is none, and the continuation.
  pub list_claims : World → Dict Bytes Bytes → ℕ → Bytes → Result ApiError ClaimList
  pub create_claim : Claim → World → Result ApiError (Unit {0}) × World
  pub remove_claim : Bytes → World → Result ApiError (Unit {0}) × World
  pub list_sandboxes : World → Result ApiError (Unit {0})
  -- The Pod's name in the annotations of a Sandbox, empty where there is none.
  pub get_sandbox : World → Bytes → Result ApiError Bytes
  pub get_pod : World → Bytes → Result ApiError Pod
  pub get_warm_pool : World → Bytes → Result ApiError WarmPool
  -- How often a claim is polled before the context is done, and the world a poll later.
  pub polls : World → ℕ
  pub poll : World → World
  -- The calls of the transfer manager by other goroutines while one waits for transfers to end.
  pub waiting : World → List Action × World
  -- The target, the command, its standard input, and the timeout in seconds.
  pub run : PodTarget → List Bytes → Bytes → Option ℤ → World → RunOutcome × World

-- The world, and the transfers of the backend's process.
pub record Node (World : Type 0) : Type 0 where
  pub world : World
  pub transfers : TransferManager

-- An error of the API server that is passed on.
abbrev pub api_failure : ApiError → Error
api_failure absent = other "not found"
api_failure expired = other "expired"
api_failure (failed message) = other message

-- A call whose errors are passed on, with the context `%w` adds to them.
abbrev pub wrapped : {A : Type 0} → String → Result ApiError A → Result Error A
wrapped message (err e) = err (other message)
wrapped message (ok a) = ok a

abbrev pub passed : {A : Type 0} → Result ApiError A → Result Error A
passed (err e) = err (api_failure e)
passed (ok a) = ok a

-- A missing key of a Go map of strings reads as the empty string.
abbrev pub text_or_empty : Option Bytes → Bytes
text_or_empty none = []
text_or_empty (some text) = text

unfoldable pub label : Bytes → Claim → Bytes
label key claim = text_or_empty (lookup key claim.labels)

unfoldable pub annotation : Bytes → Claim → Bytes
annotation key claim = text_or_empty (lookup key claim.annotations)

-- An operation of the backend: it returns a result and leaves a node.
abbrev pub Operation : Type 0 → Type 0 → Type 0
Operation World A = Node World → Result Error A × Node World

-- `if err != nil { return err }`
abbrev pub after_call :
    {S A B : Type 0} → Result Error A × S → (A → S → Result Error B × S) → Result Error B × S
after_call (err e, s) next = (err e, s)
after_call (ok a, s) next = next a s

pub after_call-ok :
    {S A B : Type 0} (r : Result Error A × S) (a : A) (next : A → S → Result Error B × S)
    → r.0 ≡ ok a
    → after_call r next ≡ next a r.1
after_call-ok (err e, s) a next h = absurd (ground (arith, h))
after_call-ok (ok c, s) a next h = cc

infixl 5 ◌>>=◌
abbrev pub ◌>>=◌ :
    {World A B : Type 0} → Operation World A → (A → Operation World B) → Operation World B
◌>>=◌ m f node = after_call (m node) f

-- A result that does not depend on the node.
abbrev pub lift : {World A : Type 0} → Result Error A → Operation World A
lift result node = (result, node)
