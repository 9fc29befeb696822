-- ===== src/ControlPlane/Requests/Isolation.antt =====
-- apps/control-plane-go/internal/backend/kubernetes/backend.go: a Lease of another scope answers like
-- one that is not there.
use agent_sandbox_platform.Base.{
  ℕ, Bytes, bytes_eq, ◌≡◌, ◌≢◌, ◌⊎◌, ◌||◌, inl, inr, refl, arith, if◌then◌else◌,
}
use agent_sandbox_platform.Base.Int.{pos, ltb_ℤ}
use agent_sandbox_platform.ControlPlane.Markers.{transfer_too_large}
use agent_sandbox_platform.Base.Result.{ok, err}
use agent_sandbox_platform.ControlPlane.Lease.{Scope, not_found}
use agent_sandbox_platform.ControlPlane.Cursors.{scope_hash}
use agent_sandbox_platform.ControlPlane.Cluster.{Claim, absent, Environment, Node, label}
use agent_sandbox_platform.ControlPlane.Claims.{
  Backend, require_claim, found_claim, belongs, scope_label,
}
use agent_sandbox_platform.ControlPlane.Streams.{
  Route, Download, Upload, StreamWriteRequest, prepare_transfer, open_file, write_file_stream,
}
use agent_sandbox_platform.ControlPlane.Requests.{
  ExecRequest, ReadFileRequest, WriteFileRequest, get_lease, release_lease, delete_lease, exec,
  read_file, write_file, require_active_target,
}

module _ {World : Type 0} (env : Environment World) (b : Backend) where
  -- There is no claim for a Lease, or one that carries another scope's hash.
  abbrev pub IsForeign : Scope → Bytes → World → Type 0
  IsForeign scope id w =
      (env.get_claim w id ≡ err absent)
      ⊎ ((claim : Claim) × (env.get_claim w id ≡ ok claim)
          × (label scope_label claim ≢ scope_hash env.packages b.secret scope))

  found_claim-foreign :
      (scope : Scope) (id : Bytes) (w : World)
      → IsForeign scope id w
      → found_claim env b scope (env.get_claim w id) ≡ err not_found
  unfolding found_claim belongs
  found_claim-foreign scope id w (inl e) = rw e refl
  found_claim-foreign scope id w (inr (claim, e, other)) = rw e (ground (arith, other))

  require_claim-foreign :
      (scope : Scope) (id : Bytes) (node : Node World)
      → IsForeign scope id node.world
      → require_claim env b scope id node ≡ (err not_found, node)
  unfolding require_claim
  require_claim-foreign scope id node h = rw (found_claim-foreign scope id node.world h) refl

  -- Each of the eight requests on a Lease that is not there, or that is another scope's, is answered that
  -- it is not found and changes nothing: neither answer nor effect tells the two apart. They are Get,
  -- Release, Delete, Exec, ReadFile, WriteFile, OpenFile and WriteFileStream; the last refuses a size
  -- below 0 or above 64 MiB before it looks, with the same answer for every Lease.
  pub requests-foreign :
      (download : Route → ℕ → World → Download × World)
      (upload : Route → StreamWriteRequest → ℕ → World → Upload × World) (scope : Scope)
      (id : Bytes) (node : Node World) (e : ExecRequest) (r : ReadFileRequest)
      (w : WriteFileRequest) (path : Bytes) (s : StreamWriteRequest)
      → IsForeign scope id node.world
      → (get_lease env b scope id node ≡ (err not_found, node))
        × (release_lease env b scope id node ≡ (err not_found, node))
        × (delete_lease env b scope id node ≡ (err not_found, node))
        × (exec env b scope id e node ≡ (err not_found, node))
        × (read_file env b scope id r node ≡ (err not_found, node))
        × (write_file env b scope id w node ≡ (err not_found, node))
        × (open_file env b download upload scope id path node ≡ (err not_found, node))
        × (write_file_stream env b download upload scope id s node ≡ (
            if ltb_ℤ s.size_bytes (pos 0) || ltb_ℤ (pos 67108864) s.size_bytes
            then (err transfer_too_large, node)
            else (err not_found, node)))
  unfolding get_lease release_lease delete_lease exec read_file write_file require_active_target
      open_file write_file_stream prepare_transfer
  requests-foreign download upload scope id node e r w path s h =
      let refused = require_claim-foreign scope id node h in
      (
        rw refused refl,
        rw refused refl,
        rw refused refl,
        rw refused refl,
        rw refused refl,
        rw refused refl,
        rw refused refl,
        rw refused refl,
      )
