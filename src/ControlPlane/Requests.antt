-- ===== src/ControlPlane/Requests.antt =====
-- apps/control-plane-go/internal/backend/kubernetes/backend.go and exec.go: the requests on one Lease,
-- `Get`, `Release`, `Delete`, `Exec`, `ReadFile` and `WriteFile`.
pub mod Isolation
pub mod Expiry
use agent_sandbox_platform.Base.{
  ℕ, Bool, true, false, not, ◌||◌, Option, none, some, List, [], ◌∷◌, ◌++◌, Bytes, ◌==◌, bytes_eq,
  ltb, eqb, if◌then◌else◌,
}
use agent_sandbox_platform.Base.Dict.{Dict, lookup}
use agent_sandbox_platform.Base.Int.{ℤ, pos, leb_ℤ}
use agent_sandbox_platform.Base.Result.{Result, ok, err}
use agent_sandbox_platform.Base.Text.{bytes}
use agent_sandbox_platform.Codec.Base64.{encode_std}
use agent_sandbox_platform.Codec.PosixPath.{dir}
use agent_sandbox_platform.ControlPlane.Buffers.{Buffer, empty, write_all, max_command_output}
use agent_sandbox_platform.ControlPlane.Commands.{
  normalize_workspace_path, shell_command, shell_quote, workspace_path,
}
use agent_sandbox_platform.ControlPlane.Lease.{
  Scope, Record, Status, released, expired, Error, typed, other,
}
use agent_sandbox_platform.ControlPlane.Cluster.{
  Claim, ApiError, absent, Environment, Node, Operation, PodTarget, RunEnd, RunOutcome, exited,
  stopped, broken, after_call, ◌>>=◌, lift, api_failure, passed,
}
use agent_sandbox_platform.ControlPlane.Claims.{
  Backend, Pool, record_from_claim, require_claim, delete_claim, stop_transfers,
  stop_lease_and_delete,
}
use agent_sandbox_platform.ControlPlane.Acquire.{container_of}

abbrev pub lease_not_active : Error
lease_not_active = typed 409 "LEASE_NOT_ACTIVE" "Lease is not active"

abbrev pub sandbox_not_ready : Error
sandbox_not_ready = typed 503 "SANDBOX_NOT_READY" "Sandbox is not ready"

pub record ExecRequest : Type 0 where
  pub command : Bytes
  pub cwd : Bytes
  pub env : Dict Bytes Bytes
  pub timeout_seconds : Option ℤ

pub record ExecResult : Type 0 where
  pub stdout : Bytes
  pub stderr : Bytes
  pub code : ℕ

pub record ReadFileRequest : Type 0 where
  pub path : Bytes
  pub encoding : Bytes

pub record ReadFileResult : Type 0 where
  pub path : Bytes
  pub content : Bytes
  pub encoding : Bytes

pub record WriteFileRequest : Type 0 where
  pub path : Bytes
  pub content : Bytes
  pub encoding : Bytes

-- `*timeoutSeconds <= 0`
abbrev pub timeout_invalid : Option ℤ → Bool
timeout_invalid none = false
timeout_invalid (some seconds) = leb_ℤ seconds (pos 0)

-- What `runCommand` makes of the buffers and the error of the runner.
unfoldable pub command_result : Buffer → Buffer → RunEnd → Result Error ExecResult
command_result stdout stderr ended =
    if stdout.exceeded || stderr.exceeded
    then err (typed 413 "OUTPUT_TOO_LARGE" "Command output exceeded 10 MiB")
    else elim ended [
      | exited code ↦ ok (record { stdout = stdout.value; stderr = stderr.value; code = code })
      | stopped ↦ err (typed 408 "ABORTED" "Command was aborted or timed out")
      | broken message ↦ err (other "stream Pod exec")
    ]

abbrev pub encoding_or_utf8 : Bytes → Bytes
encoding_or_utf8 [] = bytes "utf8"
encoding_or_utf8 (c ∷ name) = c ∷ name

-- The shell's text for `ReadFile`.
unfoldable pub read_command : Bytes → Bytes → Bytes
read_command encoding path =
    if encoding == bytes "base64"
    then bytes "base64 < " ++ (shell_quote path ++ bytes " | tr -d '\\n'")
    else bytes "cat -- " ++ shell_quote path

-- The shell's text and its input for `WriteFile`.
unfoldable pub write_command : Bytes → Bytes
write_command path =
    bytes "mkdir -p -- "
    ++ (shell_quote (dir path) ++ (bytes " && base64 -d > " ++ shell_quote path))

unfoldable pub write_input : Bytes → Bytes → Bytes
write_input encoding content = if encoding == bytes "base64" then content else encode_std content

abbrev pub sh : Bytes → List Bytes
sh command = bytes "sh" ∷ bytes "-lc" ∷ command ∷ []

module _ {World : Type 0} (env : Environment World) (b : Backend) where
  -- The node with a Lease stopped and deleted, as far as it can be.
  unfoldable pub abandon : Bytes → Node World → Node World
  abandon id node = (stop_lease_and_delete env b id node).1

  -- `Get`, once the claim is read.
  unfoldable pub get_record : Bytes → Record → Operation World Record
  get_record id lease node =
      if not (ltb (env.now node.world) lease.expires_at)
      then (ok (record lease { status = expired }), abandon id node)
      else (ok lease, node)

  -- `Get`
  unfoldable pub get_lease : Scope → Bytes → Operation World Record
  get_lease scope id = require_claim env b scope id >>= λ claim.
      lift (record_from_claim env b claim) >>= get_record id

  -- `Release`, once the claim is read.
  unfoldable pub release_record : Bytes → Record → Operation World Record
  release_record id lease node =
      let status = if not (ltb (env.now node.world) lease.expires_at) then expired else released in
      (stop_transfers env b id >>= λ u.
      delete_claim env b id >>= λ v. lift (ok (record lease { status = status })))
        node

  -- `Release`
  unfoldable pub release_lease : Scope → Bytes → Operation World Record
  release_lease scope id = require_claim env b scope id >>= λ claim.
      lift (record_from_claim env b claim) >>= release_record id

  -- `Delete`
  unfoldable pub delete_lease : Scope → Bytes → Operation World (Unit {0})
  delete_lease scope id = require_claim env b scope id >>= λ claim.
      stop_transfers env b id >>= λ u. delete_claim env b id

  -- The Pod of a Sandbox, and its container.
  unfoldable pub target_in_sandbox : Pool → Bytes → Bytes → World → Result Error PodTarget
  target_in_sandbox pool sandbox_name annotated w =
      let pod_name = if annotated == [] then sandbox_name else annotated in
      elim (env.get_pod w pod_name) [
        | err e ↦ err (api_failure e)
        | ok pod ↦
            let container = container_of pool.container_name pod.containers in
            if container == []
            then err (typed 502 "SANDBOX_CONTAINER_NOT_FOUND" "Sandbox Pod has no container")
            else ok (record { pod = pod_name; container = container })
      ]

  abbrev pub sandbox_target : Pool → Bytes → World → Result ApiError Bytes → Result Error PodTarget
  sandbox_target pool sandbox_name w (err absent) = err sandbox_not_ready
  sandbox_target pool sandbox_name w (err ApiError.expired) = err (api_failure ApiError.expired)
  sandbox_target pool sandbox_name w (err (ApiError.failed message)) =
      err (api_failure (ApiError.failed message))
  sandbox_target pool sandbox_name w (ok annotated) =
      target_in_sandbox pool sandbox_name annotated w

  -- `targetForClaim`
  unfoldable pub target_for_claim : Claim → Bytes → World → Result Error PodTarget
  target_for_claim claim pool_name w = elim (lookup pool_name b.pools) [
    | none ↦ err (typed 500 "POOL_CONFIGURATION_MISSING" "Lease pool configuration is unavailable")
    | some pool ↦
        if claim.sandbox_name == []
        then err sandbox_not_ready
        else sandbox_target pool claim.sandbox_name w (env.get_sandbox w claim.sandbox_name)
  ]

  -- `requireActiveTarget`, once the claim is read.
  unfoldable pub active_target : Bytes → Claim → Record → Operation World PodTarget
  active_target id claim lease node =
      if not (ltb (env.now node.world) lease.expires_at)
      then (err lease_not_active, abandon id node)
      else (target_for_claim claim lease.pool node.world, node)

  -- `requireActiveTarget`
  unfoldable pub require_active_target : Scope → Bytes → Operation World PodTarget
  require_active_target scope id = require_claim env b scope id >>= λ claim.
      lift (record_from_claim env b claim) >>= active_target id claim

  -- `runCommand`; an empty input is none.
  unfoldable pub run_command :
      PodTarget → List Bytes → Bytes → Option ℤ → Operation World ExecResult
  run_command target command stdin timeout node =
      let outcome = env.run target command stdin timeout node.world in
      if timeout_invalid timeout
      then (err (typed 400 "INVALID_REQUEST" "'timeoutSeconds' must be a positive integer"), node)
      else (
        command_result (write_all (outcome.0.stdout_chunks) (empty max_command_output))
            (write_all (outcome.0.stderr_chunks) (empty max_command_output)) (outcome.0.end_of_run),
        record node { world = outcome.1 },
      )

  -- `Exec`
  unfoldable pub exec : Scope → Bytes → ExecRequest → Operation World ExecResult
  exec scope id request = require_active_target scope id >>= λ target.
      lift (normalize_workspace_path request.cwd) >>= λ cwd.
      lift (shell_command cwd request.env request.command) >>= λ command.
      run_command target (sh command) [] request.timeout_seconds

  unfoldable pub read_result : ReadFileRequest → ExecResult → Result Error ReadFileResult
  read_result request result =
      if not (eqb result.code 0)
      then err (typed 502 "FILE_READ_FAILED" "Workspace file could not be read")
      else ok (record {
        path = request.path;
        content = result.stdout;
        encoding = encoding_or_utf8 request.encoding;
      })

  -- `ReadFile`
  unfoldable pub read_file : Scope → Bytes → ReadFileRequest → Operation World ReadFileResult
  read_file scope id request = require_active_target scope id >>= λ target.
      lift (normalize_workspace_path request.path) >>= λ path.
      run_command target (sh (read_command (encoding_or_utf8 request.encoding) path)) [] none
      >>= λ result. lift (read_result request result)

  unfoldable pub write_result : ExecResult → Result Error (Unit {0})
  write_result result =
      if not (eqb result.code 0)
      then err (typed 502 "FILE_WRITE_FAILED" "Workspace file could not be written")
      else ok tt

  -- `WriteFile`
  unfoldable pub write_file : Scope → Bytes → WriteFileRequest → Operation World (Unit {0})
  write_file scope id request = require_active_target scope id >>= λ target.
      lift (normalize_workspace_path request.path) >>= λ path.
      run_command target (sh (write_command path)) (write_input request.encoding request.content)
        none
      >>= λ result. lift (write_result result)
