-- ===== src/ControlPlane/Streams.antt =====
-- apps/control-plane-go/internal/backend/kubernetes/transfer.go: `OpenFile` and `WriteFileStream`, which
-- move a file through the transfer helper of a sandbox.
pub mod Stepping
pub mod Steps
pub mod Outcomes
pub mod Draining
pub mod Finishing
use agent_sandbox_platform.Base.{
  ℕ, ◌*◌, Bool, true, false, not, ◌&&◌, ◌||◌, Option, none, some, List, [], ◌∷◌, ◌++◌, Bytes, ◌==◌,
  bytes_eq, ltb, leb, eqb, length, if◌then◌else◌,
}
use agent_sandbox_platform.Codec.Decimal.{format_decimal}
use agent_sandbox_platform.Codec.Hexadecimal.{encode_hex}
use agent_sandbox_platform.Base.Int.{magnitude, ℤ, pos, negsuc, leb_ℤ, ltb_ℤ}
use agent_sandbox_platform.Base.Result.{Result, ok, err}
use agent_sandbox_platform.Base.Text.{bytes}
use agent_sandbox_platform.ControlPlane.Buffers.{Buffer, empty, write_all}
use agent_sandbox_platform.ControlPlane.Commands.{normalize_workspace_path, workspace_path}
use agent_sandbox_platform.ControlPlane.Lease.{Scope, Record, Error, typed, aborted}
use agent_sandbox_platform.ControlPlane.Cluster.{
  Claim, Environment, Node, Operation, PodTarget, after_call, ◌>>=◌, lift,
}
use agent_sandbox_platform.ControlPlane.Claims.{Backend, record_from_claim, require_claim}
use agent_sandbox_platform.ControlPlane.Markers.{
  TransferMarker, StreamEnd, finished, interrupted, broke, max_transfer_marker_bytes,
  parse_transfer_marker, read_transfer_marker, remote_transfer_error, map_transfer_run_error,
  file_transfer_failed, transfer_too_large,
}
use agent_sandbox_platform.ControlPlane.Requests.{abandon, target_for_claim, lease_not_active}
use agent_sandbox_platform.ControlPlane.Transfers.{Action, TransferManager, begin, finish, run}

abbrev pub max_file_transfer_bytes : ℤ
max_file_transfer_bytes = pos (64 * 1024 * 1024)

abbrev pub invalid_path : Error
invalid_path = typed 400 "INVALID_PATH" "Path must name a file inside /workspace"

abbrev pub content_length_mismatch : Error
content_length_mismatch =
    typed 400 "CONTENT_LENGTH_MISMATCH" "Request body does not match Content-Length"

-- Where a transfer goes: the Pod, the time at which the Lease expires, and the path.
pub record Route : Type 0 where
  pub target : PodTarget
  pub expires_at : ℕ
  pub path : Bytes

-- `address` is the operation, which runs until the content is closed.
pub record FileDownload : Type 0 where
  pub address : ℕ
  pub size_bytes : ℤ
  pub sha256 : Bytes

-- What happens while the marker of a download is read: what the helper writes, how its run ends if the
-- stream ends, whether the transfer's context is done afterwards, and the calls of the transfer manager
-- by other goroutines.
pub record Download : Type 0 where
  pub stream : Bytes
  pub end_of_run : StreamEnd
  pub is_done : Bool
  pub others : List Action

-- What happens while an upload runs. `input_count` is how many bytes the helper read of the body, and
-- `input_failed` says that reading it ended with an error other than its end.
pub record Upload : Type 0 where
  pub stdout_chunks : List Bytes
  pub end_of_run : StreamEnd
  pub is_done : Bool
  pub input_count : ℕ
  pub input_failed : Bool
  pub others : List Action

pub record StreamWriteRequest : Type 0 where
  pub path : Bytes
  pub size_bytes : ℤ
  pub sha256 : Bytes

-- `strings.TrimSuffix` of a line's end.
unfoldable pub without_newline : Bytes → Bytes
without_newline [] = []
without_newline (c ∷ []) = if eqb c 10 then [] else c ∷ []
without_newline (c ∷ d ∷ text) = c ∷ without_newline (d ∷ text)

abbrev pub transfer_helper : Bytes
transfer_helper = bytes "/usr/local/bin/agent-sandbox-transfer"

-- The helper's command for a download.
unfoldable pub download_command : Bytes → List Bytes
download_command path = transfer_helper ∷ bytes "download" ∷ path ∷ []

-- The helper's command for an upload, whose size is not negative.
unfoldable pub upload_command : Bytes → StreamWriteRequest → List Bytes
upload_command path request =
    transfer_helper
    ∷ bytes "upload"
    ∷ path
    ∷ format_decimal (magnitude request.size_bytes)
    ∷ encode_hex request.sha256
    ∷ []

-- `marker.code != ""`, or what the size comes to.
unfoldable pub opened : ℕ → TransferMarker → Result Error FileDownload
opened address marker =
    if ltb_ℤ marker.size (pos 0) || ltb_ℤ max_file_transfer_bytes marker.size
    then err transfer_too_large
    else ok (record { address = address; size_bytes = marker.size; sha256 = marker.content_digest })

-- `OpenFile` once the marker is read, up to what it does to the operation.
unfoldable pub open_result : ℕ → Bool → Result Error TransferMarker → Result Error FileDownload
open_result address is_done (err e) = if is_done then err aborted else err e
open_result address is_done (ok marker) =
    if not (marker.code == [])
    then err (remote_transfer_error marker.code)
    else if is_done
    then err aborted
    else opened address marker

-- `WriteFileStream` once no marker has decided.
unfoldable pub run_failure : Upload → Result Error (Unit {0})
run_failure upload = elim (map_transfer_run_error false upload.end_of_run) [
  | some e ↦ err e
  | none ↦ err file_transfer_failed
]

abbrev pub is_clean : StreamEnd → Bool
is_clean finished = true
is_clean interrupted = false
is_clean broke = false

unfoldable pub marker_result : Upload → Option TransferMarker → Result Error (Unit {0})
marker_result upload none = run_failure upload
marker_result upload (some marker) =
    if not (marker.code == [])
    then err (remote_transfer_error marker.code)
    else if is_clean upload.end_of_run
    then ok tt
    else run_failure upload

-- `WriteFileStream` once the helper's run has ended.
unfoldable pub upload_result : StreamWriteRequest → Upload → Result Error (Unit {0})
upload_result request upload =
    let stdout = write_all upload.stdout_chunks (empty max_transfer_marker_bytes) in
    if upload.is_done
    then err aborted
    else if upload.input_failed && leb_ℤ request.size_bytes (pos upload.input_count)
    then err content_length_mismatch
    else if stdout.exceeded
    then run_failure upload
    else marker_result upload (parse_transfer_marker (without_newline stdout.value))

module _ {World : Type 0} (env : Environment World) (b : Backend)
    (download : Route → ℕ → World → Download × World)
    (upload : Route → StreamWriteRequest → ℕ → World → Upload × World) where
  -- The path of a transfer is not the workspace itself.
  unfoldable pub file_path : Result Error Bytes → Result Error Bytes
  file_path (err e) = err invalid_path
  file_path (ok path) = if path == workspace_path then err invalid_path else ok path

  unfoldable pub routed : Claim → Record → Bytes → Operation World Route
  routed claim lease path node =
      after_call (target_for_claim env b claim lease.pool node.world, node)
        (λ target next.
          (ok (record { target = target; expires_at = lease.expires_at; path = path }), next))

  -- `prepareTransfer`, once the claim is read.
  unfoldable pub prepare_record : Bytes → Bytes → Claim → Record → Operation World Route
  prepare_record id requested claim lease node =
      if not (ltb (env.now node.world) lease.expires_at)
      then (err lease_not_active, abandon env b id node)
      else after_call (file_path (normalize_workspace_path requested), node) (routed claim lease)

  -- `prepareTransfer`
  unfoldable pub prepare_transfer : Scope → Bytes → Bytes → Operation World Route
  prepare_transfer scope id requested = require_claim env b scope id >>= λ claim.
      lift (record_from_claim env b claim) >>= prepare_record id requested claim

  -- `transfers.begin`
  unfoldable pub begin_transfer : Bytes → ℕ → Operation World ℕ
  begin_transfer id expires_at node =
      let begun = begin (env.now node.world) id expires_at node.transfers in
      (begun.0, record node { transfers = begun.1 })

  -- The operation is over: the runner's goroutine has finished it.
  abbrev pub ended : ℕ → Node World → Node World
  ended address node = record node { transfers = finish address node.transfers }

  abbrev pub opened_or_ended :
      ℕ → Result Error FileDownload → Node World → Result Error FileDownload × Node World
  opened_or_ended address (err e) node = (err e, ended address node)
  opened_or_ended address (ok file) node = (ok file, node)

  -- `OpenFile` once its operation has begun.
  unfoldable pub receive : Route → ℕ → Operation World FileDownload
  receive route address node =
      let got = download route address node.world in
      let next = record node { world = got.1; transfers = run (got.0.others) node.transfers } in
      opened_or_ended address
        (open_result address (got.0.is_done) (
          read_transfer_marker (got.0.stream)
            (map_transfer_run_error (got.0.is_done) (got.0.end_of_run))))
        next

  -- `OpenFile`
  unfoldable pub open_file : Scope → Bytes → Bytes → Operation World FileDownload
  open_file scope id requested = prepare_transfer scope id requested >>= λ route.
      begin_transfer id route.expires_at >>= receive route

  -- `WriteFileStream` once its operation has begun.
  unfoldable pub send : StreamWriteRequest → Route → ℕ → Operation World (Unit {0})
  send request route address node =
      let sent = upload route request address node.world in
      (
        upload_result request (sent.0),
        ended address
            (record node { world = sent.1; transfers = run (sent.0.others) node.transfers }),
      )

  -- `WriteFileStream`
  unfoldable pub write_file_stream : Scope → Bytes → StreamWriteRequest → Operation World (Unit {0})
  write_file_stream scope id request node =
      let written =
        (prepare_transfer scope id request.path >>= λ route.
        begin_transfer id route.expires_at >>= send request route)
          node in
      if ltb_ℤ request.size_bytes (pos 0) || ltb_ℤ max_file_transfer_bytes request.size_bytes
      then (err transfer_too_large, node)
      else written
