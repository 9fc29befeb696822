-- ===== src/ControlPlane/Streams/Draining.antt =====
-- apps/control-plane-go/internal/backend/kubernetes: what the requests on a Lease leave of its file
-- transfers.
use agent_sandbox_platform.Base.{
  ℕ, ◌≡◌, refl, sym, subst, ap, ◌∙◌, true, [], ◌∷◌, Bytes, nat_eq, bytes_eq, ◌==◌, arith,
  Bool-cases, Option-cases, inl, inr,
}
use agent_sandbox_platform.Base.Dict.{Dict, lookup}
use agent_sandbox_platform.Base.Result.{Result, ok, err}
use agent_sandbox_platform.ControlPlane.Lease.{Scope, Record, Error}
use agent_sandbox_platform.ControlPlane.Cluster.{Environment, Node, after_call}
use agent_sandbox_platform.ControlPlane.Claims.{
  Backend, require_claim, record_from_claim, delete_claim, all_done, wait_transfers, stop_transfers,
}
use agent_sandbox_platform.ControlPlane.Requests.{
  ExecRequest, ReadFileRequest, WriteFileRequest, get_lease, release_record, release_lease,
  delete_lease, exec, read_file, write_file,
}
use agent_sandbox_platform.ControlPlane.Streams.{
  Route, Download, Upload, StreamWriteRequest, open_file, write_file_stream,
}
use agent_sandbox_platform.ControlPlane.Streams.Stepping.{Follows}
use agent_sandbox_platform.ControlPlane.Streams.Steps.{requests-Follow}
use agent_sandbox_platform.ControlPlane.Transfers.{
  Addresses, TransferOperation, TransferManager, running, is_blocked, stop_lease, run,
}
use agent_sandbox_platform.ControlPlane.Transfers.Laws.{is_bound}
use agent_sandbox_platform.ControlPlane.Transfers.Counting.{IsCounted, run_from-IsCounted}
use agent_sandbox_platform.ControlPlane.Transfers.Draining.{is_done, stopped-drains}

all_done-is_done :
    (waits : Addresses) (operations : Dict ℕ TransferOperation) (a : ℕ)
    → all_done waits operations ≡ true
    → is_bound (lookup a waits) ≡ true
    → is_done (lookup a operations) ≡ true
unfolding all_done lookup
all_done-is_done [] operations a h bound = absurd (ground (arith, bound))
all_done-is_done ((b, u) ∷ waits) operations a h bound = elim (Option-cases (lookup b operations)) [
  | inl e ↦ absurd (ground (arith, h, e))
  | inr (op, e) ↦ elim (Bool-cases op.done) [
    | inr d ↦ absurd (ground (arith, h, e, d))
    | inl d ↦ elim (Bool-cases (a == b)) [
      | inl same ↦ ground (arith, e, d, same)
      | inr other ↦
          all_done-is_done waits operations a (ground (arith, h, e, d))
            (ground (arith, bound, other))
    ]
  ]
]

after_call-result :
    {S A B : Type 0} (r : Result Error A × S) (next : A → S → Result Error B × S) (c : B)
    (after : S)
    → after_call r next ≡ (ok c, after)
    → (a : A) × (r.0 ≡ ok a) × (next a r.1 ≡ (ok c, after))
after_call-result (err e, s) next c after h = absurd (ground (arith, h))
after_call-result (ok a, s) next c after h = (a, refl, h)

-- No transfer of a Lease runs, and none can begin.
pub record IsDrained (id : Bytes) (m : TransferManager) : Type 0 where
  pub refused : is_blocked id m ≡ true
  pub idle : running id m ≡ 0

module _ {World : Type 0} (env : Environment World) (b : Backend) where
  -- A request that takes a Lease away has succeeded, and has left a node.
  pub data IsRemoval (scope : Scope) (id : Bytes) (node after : Node World) : Type 0 where
    by_delete : delete_lease env b scope id node ≡ (ok tt, after) → IsRemoval scope id node after
    by_release :
        (lease : Record)
        → release_lease env b scope id node ≡ (ok lease, after)
        → IsRemoval scope id node after

  stop_transfers-IsDrained :
      (id : Bytes) (node : Node World) (u : Unit {0})
      → IsCounted node.transfers
      → (stop_transfers env b id node).0 ≡ ok u
      → IsDrained id ((stop_transfers env b id node).1.transfers)
  unfolding stop_transfers wait_transfers
  stop_transfers-IsDrained id node u v h =
      let stopped = stop_lease id node.transfers in
      let others = (env.waiting node.world).0 in
      let waited : all_done stopped.0 (run others stopped.1).operations ≡ true =
        ground (arith, h) in
      let (idle, refused) =
        stopped-drains id node.transfers others v
          (λ a. all_done-is_done stopped.0 (run others stopped.1).operations a waited) in
      record { refused = refused; idle = idle }

  delete_claim-transfers :
      (id : Bytes) (node : Node World) → (delete_claim env b id node).1.transfers ≡ node.transfers
  unfolding delete_claim
  delete_claim-transfers id node = refl

  deleted-IsDrained :
      (id : Bytes) (node after : Node World)
      → IsCounted node.transfers
      → after_call (stop_transfers env b id node) (λ u. delete_claim env b id) ≡ (ok tt, after)
      → IsDrained id after.transfers
  deleted-IsDrained id node after v h =
      let (u, stopped, deleted) =
        after_call-result (stop_transfers env b id node) (λ u. delete_claim env b id) tt after h in
      let stop = stop_transfers env b id node in
      subst (IsDrained id)
        (sym (delete_claim-transfers id stop.1)
          ∙ ap (λ (r : Result Error (Unit {0}) × Node World). r.1.transfers) deleted)
        (stop_transfers-IsDrained id node u v stopped)

  released-IsDrained :
      (id : Bytes) (lease given : Record) (node after : Node World)
      → IsCounted node.transfers
      → release_record env b id lease node ≡ (ok given, after)
      → IsDrained id after.transfers
  unfolding release_record
  released-IsDrained id lease given node after v h =
      let stop = stop_transfers env b id node in
      let (u, stopped, h₁) = after_call-result stop _ given after h in
      let (w, deleted, h₂) = after_call-result (delete_claim env b id stop.1) _ given after h₁ in
      subst (IsDrained id)
        (sym (delete_claim-transfers id stop.1)
          ∙ ap (λ (r : Result Error Record × Node World). r.1.transfers) h₂)
        (stop_transfers-IsDrained id node u v stopped)

  removal-IsDrained :
      (scope : Scope) (id : Bytes) (node after : Node World)
      → IsCounted node.transfers
      → IsRemoval scope id node after
      → IsDrained id after.transfers
  unfolding delete_lease release_lease require_claim
  removal-IsDrained scope id node after v (by_delete h) =
      let (claim, owned, h₁) = after_call-result (require_claim env b scope id node) _ tt after h in
      deleted-IsDrained id node after v h₁
  removal-IsDrained scope id node after v (by_release given h) =
      let (claim, owned, h₁) =
        after_call-result (require_claim env b scope id node) _ given after h in
      let (lease, readable, h₂) =
        after_call-result (record_from_claim env b claim, node) (release_record env b id) given
          after h₁ in
      released-IsDrained id lease given node after v h₂

  IsCounted-Follows : (m after : TransferManager) → IsCounted m → Follows m after → IsCounted after
  IsCounted-Follows m after v f = subst IsCounted (sym f.reached) (run_from-IsCounted f.actions m v)

  module _ (download : Route → ℕ → World → Download × World)
      (upload : Route → StreamWriteRequest → ℕ → World → Upload × World) where
    pub requests-IsCounted :
        (scope : Scope) (id path : Bytes) (e : ExecRequest) (r : ReadFileRequest)
        (w : WriteFileRequest) (s : StreamWriteRequest) (node after : Node World)
        → IsCounted node.transfers
        → IsRemoval scope id node after
        → IsDrained id after.transfers
          × IsCounted (get_lease env b scope id node).1.transfers
          × IsCounted (release_lease env b scope id node).1.transfers
          × IsCounted (delete_lease env b scope id node).1.transfers
          × IsCounted (exec env b scope id e node).1.transfers
          × IsCounted (read_file env b scope id r node).1.transfers
          × IsCounted (write_file env b scope id w node).1.transfers
          × IsCounted (open_file env b download upload scope id path node).1.transfers
          × IsCounted ((write_file_stream env b download upload scope id s node).1.transfers)
    requests-IsCounted scope id path e r w s node after v removed =
        let (a, c, d, f, g, h, i, j) =
          requests-Follow env b download upload scope id path e r w s node in
        let counted = λ (m : TransferManager). IsCounted-Follows node.transfers m v in
        (
          removal-IsDrained scope id node after v removed,
          counted _ a,
          counted _ c,
          counted _ d,
          counted _ f,
          counted _ g,
          counted _ h,
          counted _ i,
          counted _ j,
        )
