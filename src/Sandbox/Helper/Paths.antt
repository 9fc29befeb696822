-- ===== src/Sandbox/Helper/Paths.antt =====
-- images/runtime/file-transfer/main.go and the control plane: a path that the control plane sends is one
-- that the helper takes.
use agent_sandbox_platform.Base.{
  false, List, [], ◌∷◌, Bytes, ◌==◌, bytes_eq, any, All, ◌≡◌, refl, ap, ◌∙◌, arith,
}
use agent_sandbox_platform.Base.Result.{ok}
use agent_sandbox_platform.Base.Text.{bytes, has_prefix, split, join}
use agent_sandbox_platform.Base.Text.Splitting.{Lacks, split-join}
use agent_sandbox_platform.Codec.PosixPath.{absolute}
use agent_sandbox_platform.Codec.PosixPath.Laws.{IsPlain}
use agent_sandbox_platform.ControlPlane.Commands.{normalize_workspace_path, workspace_path}
use agent_sandbox_platform.ControlPlane.Commands.Paths.{normalize-in_workspace}
use agent_sandbox_platform.Sandbox.Helper.{is_bad_part, ends_empty, path_parts}

Lacks-plain : (parts : List Bytes) → All IsPlain parts → All (Lacks b'/') parts
Lacks-plain [] h = tt
Lacks-plain (part ∷ parts) h = (h.0.no_slash, Lacks-plain parts h.1)

good_part : (part : Bytes) → IsPlain part → is_bad_part part ≡ false
unfolding is_bad_part
good_part part h = ground (arith, h.filled, h.no_dot, h.no_dots)

good_parts : (parts : List Bytes) → All IsPlain parts → any is_bad_part parts ≡ false
good_parts [] h = refl
good_parts (part ∷ parts) h = ground (arith, good_part part h.0, good_parts parts h.1)

ends_filled :
    (part : Bytes) (parts : List Bytes)
    → All IsPlain (part ∷ parts)
    → ends_empty (part ∷ parts) ≡ false
unfolding ends_empty
ends_filled part [] h = ground (arith, h.0.filled)
ends_filled part (next ∷ parts) h = ends_filled next parts h.1

path_parts-absolute :
    (part : Bytes) (parts : List Bytes)
    → All IsPlain (part ∷ parts)
    → path_parts (absolute (bytes "workspace" ∷ part ∷ parts)) ≡ ok (part ∷ parts)
unfolding path_parts absolute join has_prefix
path_parts-absolute part parts h =
    let cut : split b'/' (join (b'/' ∷ []) (part ∷ parts)) ≡ part ∷ parts =
      split-join b'/' part parts (Lacks-plain (part ∷ parts) h) in
    rw (cut, ends_filled part parts h, good_parts (part ∷ parts) h) refl

taken :
    (below : List Bytes) (path : Bytes)
    → path ≡ absolute (bytes "workspace" ∷ below)
    → All IsPlain below
    → (path == workspace_path) ≡ false
    → path_parts path ≡ ok below
taken [] path e h k = absurd (unfold absolute join bytes_eq in ground (arith, e, k))
taken (part ∷ parts) path e h k = ap path_parts e ∙ path_parts-absolute part parts h

-- A path that `normalizeWorkspacePath` accepts and that is not the workspace itself is one that the helper
-- in the sandbox takes: it finds the same names below the workspace in it, of which none is empty, `.`
-- or `..`.
pub path_parts-normalize :
    (value path : Bytes)
    → normalize_workspace_path value ≡ ok path
    → (path == workspace_path) ≡ false
    → (parts : List Bytes) × (path_parts path ≡ ok parts)
      × (path ≡ absolute (bytes "workspace" ∷ parts))
      × All IsPlain parts
path_parts-normalize value path h k =
    let (below, e, plain, fixed) = normalize-in_workspace value path h in
    (below, taken below path e plain k, e, plain)
