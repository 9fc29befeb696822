-- ===== src/ControlPlane/Markers.antt =====
-- apps/control-plane-go/internal/backend/kubernetes/transfer.go: the line that the transfer helper in a
-- sandbox answers with, and the errors of a transfer.
use agent_sandbox_platform.Base.{
  ℕ, zero, suc, Bool, true, false, not, ◌&&◌, Option, none, some, List, [], ◌∷◌, Bytes, ◌==◌,
  bytes_eq, eqb, length, if◌then◌else◌,
}
use agent_sandbox_platform.Base.Int.{ℤ, pos}
use agent_sandbox_platform.Base.Result.{Result, ok, err}
use agent_sandbox_platform.Base.Text.{bytes, split}
use agent_sandbox_platform.Codec.Decimal.{parse_int64}
use agent_sandbox_platform.Codec.Hexadecimal.{decode_hex}
use agent_sandbox_platform.ControlPlane.Lease.{Error, typed, aborted}

-- The zero digest, of 32 zero bytes, is empty here.
pub record TransferMarker : Type 0 where
  pub size : ℤ
  pub content_digest : Bytes
  pub code : Bytes

abbrev pub max_transfer_marker_bytes : ℕ
max_transfer_marker_bytes = 256

abbrev pub file_transfer_failed : Error
file_transfer_failed = typed 502 "FILE_TRANSFER_FAILED" "Workspace file transfer failed"

abbrev pub transfer_too_large : Error
transfer_too_large = typed 413 "TRANSFER_TOO_LARGE" "File transfer exceeds the 64 MiB limit"

-- `marker` for a size and a digest that were read.
unfoldable pub sized_marker : Option ℤ → Option Bytes → Option TransferMarker
sized_marker none digest = none
sized_marker (some size) none = none
sized_marker (some size) (some digest) =
    if eqb (length digest) 32
    then some (record { size = size; content_digest = digest; code = [] })
    else none

-- The parts of a marker.
unfoldable pub marker_of : List Bytes → Option TransferMarker
marker_of (version ∷ word ∷ []) =
    if version == bytes "ASP1" && word == bytes "OK"
    then some (record { size = pos 0; content_digest = []; code = [] })
    else none
marker_of (version ∷ word ∷ code ∷ []) =
    if version == bytes "ASP1" && word == bytes "ERR" && not (code == [])
    then some (record { size = pos 0; content_digest = []; code = code })
    else none
marker_of (version ∷ word ∷ size ∷ digest ∷ []) =
    if version == bytes "ASP1" && word == bytes "OK"
    then sized_marker (parse_int64 size) (decode_hex digest)
    else none
marker_of [] = none
marker_of (version ∷ []) = none
marker_of (version ∷ word ∷ size ∷ digest ∷ extra ∷ more) = none

-- `parseTransferMarker`
unfoldable pub parse_transfer_marker : Bytes → Option TransferMarker
parse_transfer_marker value = marker_of (split b' ' value)

-- What the reader finds within a number of bytes: a line, the end of the stream, or neither.
pub data Line : Type 0 where
  line : Bytes → Line
  cut_short : Line
  too_long : Line

abbrev pub longer : ℕ → Line → Line
longer c (line text) = line (c ∷ text)
longer c cut_short = cut_short
longer c too_long = too_long

-- The loop of `readTransferMarker`.
unfoldable pub read_line : ℕ → Bytes → Line
read_line zero stream = too_long
read_line (suc room) [] = cut_short
read_line (suc room) (c ∷ stream) =
    let rest = read_line room stream in if eqb c 10 then line [] else longer c rest

abbrev pub marker_or_failure : Option TransferMarker → Result Error TransferMarker
marker_or_failure none = err file_transfer_failed
marker_or_failure (some marker) = ok marker

-- `normalizeTransferError` for the end of a stream: a reader sees the error that the runner's end was
-- mapped to, or its plain end.
abbrev pub failure_or : Option Error → Error
failure_or none = file_transfer_failed
failure_or (some e) = e

-- `readTransferMarker`, with the errors that `normalizeTransferError` makes of its errors.
unfoldable pub read_transfer_marker : Bytes → Option Error → Result Error TransferMarker
read_transfer_marker stream ended = elim (read_line max_transfer_marker_bytes stream) [
  | line text ↦ marker_or_failure (parse_transfer_marker text)
  | cut_short ↦ err (failure_or ended)
  | too_long ↦ err file_transfer_failed
]

-- `remoteTransferError`
unfoldable pub remote_transfer_error : Bytes → Error
remote_transfer_error code =
    if code == bytes "FILE_NOT_FOUND"
    then typed 404 "FILE_NOT_FOUND" "Workspace file not found"
    else if code == bytes "INVALID_PATH"
    then typed 400 "INVALID_PATH" "Path must name a regular file inside /workspace"
    else if code == bytes "TRANSFER_TOO_LARGE"
    then transfer_too_large
    else if code == bytes "CONTENT_LENGTH_MISMATCH"
    then typed 400 "CONTENT_LENGTH_MISMATCH" "Request body does not match Content-Length"
    else if code == bytes "CONTENT_DIGEST_MISMATCH"
    then typed 422 "CONTENT_DIGEST_MISMATCH" "Request body does not match Content-Digest"
    else file_transfer_failed

-- How the runner's call ended: without an error, by its context, or by another error.
pub data StreamEnd : Type 0 where
  finished : StreamEnd
  interrupted : StreamEnd
  broke : StreamEnd

-- `mapTransferRunError`, by whether the context of the transfer is done.
unfoldable pub map_transfer_run_error : Bool → StreamEnd → Option Error
map_transfer_run_error true ended = some aborted
map_transfer_run_error false finished = none
map_transfer_run_error false interrupted = some aborted
map_transfer_run_error false broke = some file_transfer_failed
