-- ===== src/Sandbox/Helper.antt =====
-- images/runtime/file-transfer/main.go: what the transfer helper makes of its arguments and of a path,
-- before it opens anything.
pub mod Paths
pub mod Arguments
use agent_sandbox_platform.Base.{
  ℕ, ◌*◌, Bool, true, false, not, ◌||◌, Option, none, some, List, [], ◌∷◌, Bytes, ◌==◌, bytes_eq,
  eqb, any, drop, length, if◌then◌else◌,
}
use agent_sandbox_platform.Base.Int.{ℤ, pos, ltb_ℤ}
use agent_sandbox_platform.Base.Result.{Result, ok, err}
use agent_sandbox_platform.Base.Text.{bytes, has_prefix, split}
use agent_sandbox_platform.Codec.Decimal.{parse_int64}
use agent_sandbox_platform.Codec.Hexadecimal.{decode_hex}

-- `protocolError`, by its code.
abbrev pub ProtocolError : Type 0
ProtocolError = Bytes

abbrev pub invalid_path : ProtocolError
invalid_path = bytes "INVALID_PATH"

abbrev pub max_bytes : ℤ
max_bytes = pos (64 * 1024 * 1024)

-- The calls that `run` makes.
pub data Call : Type 0 where
  downloads : Bytes → Call
  uploads : Bytes → ℤ → Bytes → Call

abbrev pub digest_argument : Bytes → ℤ → Option Bytes → Result ProtocolError Call
digest_argument path size none = err (bytes "CONTENT_DIGEST_MISMATCH")
digest_argument path size (some digest) =
    if eqb (length digest) 32
    then ok (uploads path size digest)
    else err (bytes "CONTENT_DIGEST_MISMATCH")

abbrev pub size_argument : Bytes → Option ℤ → Bytes → Result ProtocolError Call
size_argument path none digest = err (bytes "TRANSFER_TOO_LARGE")
size_argument path (some size) digest =
    if ltb_ℤ size (pos 0) || ltb_ℤ max_bytes size
    then err (bytes "TRANSFER_TOO_LARGE")
    else digest_argument path size (decode_hex digest)

abbrev pub download_arguments : Bytes → List Bytes → Result ProtocolError Call
download_arguments path [] = ok (downloads path)
download_arguments path (extra ∷ more) = err invalid_path

abbrev pub upload_arguments : Bytes → List Bytes → Result ProtocolError Call
upload_arguments path [] = err invalid_path
upload_arguments path (size ∷ []) = err invalid_path
upload_arguments path (size ∷ digest ∷ []) = size_argument path (parse_int64 size) digest
upload_arguments path (size ∷ digest ∷ extra ∷ more) = err invalid_path

-- `run`, up to its call.
unfoldable pub read_arguments : List Bytes → Result ProtocolError Call
read_arguments [] = err invalid_path
read_arguments (mode ∷ []) = err invalid_path
read_arguments (mode ∷ path ∷ more) =
    if mode == bytes "download"
    then download_arguments path more
    else if mode == bytes "upload"
    then upload_arguments path more
    else err invalid_path

unfoldable pub is_bad_part : Bytes → Bool
is_bad_part part = part == [] || part == bytes "." || part == bytes ".."

unfoldable pub ends_empty : List Bytes → Bool
ends_empty [] = true
ends_empty (part ∷ []) = part == []
ends_empty (part ∷ next ∷ parts) = ends_empty (next ∷ parts)

-- `openParent`, up to the directories: the names from the workspace down to the file.
unfoldable pub path_parts : Bytes → Result ProtocolError (List Bytes)
path_parts path =
    let parts = split b'/' (drop 11 path) in
    if not (has_prefix (bytes "/workspace/") path)
    then err invalid_path
    else if ends_empty parts
    then err invalid_path
    else if any is_bad_part parts
    then err invalid_path
    else ok parts
