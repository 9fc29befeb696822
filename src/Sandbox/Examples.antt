-- ===== src/Sandbox/Examples.antt =====
-- images/runtime: the theorems at concrete inputs.
use agent_sandbox_platform.Base.{◌<◌, arith, drop, List, [], ◌∷◌, Bytes, ◌≡◌, refl, All, bytes_eq}
use agent_sandbox_platform.Base.Result.{ok}
use agent_sandbox_platform.Base.Text.{bytes, split, cons_first, join, has_prefix, trim_space}
use agent_sandbox_platform.Codec.PosixPath.{clean, absolute, resolve, climb, advance, relative}
use agent_sandbox_platform.Codec.PosixPath.Laws.{IsPlain}
use agent_sandbox_platform.ControlPlane.Commands.{normalize_workspace_path}
use agent_sandbox_platform.Sandbox.Helper.{path_parts, read_arguments, uploads, downloads}
use agent_sandbox_platform.Base.Int.{pos}
use agent_sandbox_platform.ControlPlane.Streams.{
  StreamWriteRequest, upload_command, download_command,
}
use agent_sandbox_platform.Sandbox.Helper.Arguments.{read_arguments-commands}
use agent_sandbox_platform.Sandbox.Helper.Paths.{path_parts-normalize}

path_parts-normalize_example :
    (parts : List Bytes) × (path_parts (bytes "/workspace/src/main.go") ≡ ok parts)
    × (bytes "/workspace/src/main.go" ≡ absolute (bytes "workspace" ∷ parts))
    × All IsPlain parts
unfolding normalize_workspace_path clean absolute resolve climb advance relative split cons_first
    join has_prefix trim_space bytes_eq
path_parts-normalize_example =
    path_parts-normalize (bytes "src/../src//main.go") (bytes "/workspace/src/main.go") refl refl

abbrev request : StreamWriteRequest
request = record {
  path = bytes "a";
  size_bytes = pos 42;
  sha256 =
      0 ∷ 1 ∷ 2 ∷ 3 ∷ 4 ∷ 5 ∷ 6 ∷ 7 ∷ 8 ∷ 9 ∷ 10 ∷ 11 ∷ 12 ∷ 13 ∷ 14 ∷ 15 ∷ 16 ∷ 17 ∷ 18 ∷ 19 ∷ 20
      ∷ 21 ∷ 22 ∷ 23 ∷ 24 ∷ 25 ∷ 26 ∷ 27 ∷ 28 ∷ 29 ∷ 30 ∷ 255 ∷ [];
}

are_bytes : All (λ b. b < 256) request.sha256
are_bytes = omega arith

read_arguments-commands_example :
    (read_arguments (drop 1 (upload_command (bytes "/workspace/a") request))
      ≡ ok (uploads (bytes "/workspace/a") (pos 42) request.sha256))
    × (read_arguments (drop 1 (download_command (bytes "/workspace/a")))
        ≡ ok (downloads (bytes "/workspace/a")))
read_arguments-commands_example =
    read_arguments-commands (bytes "/workspace/a") request refl refl are_bytes refl
