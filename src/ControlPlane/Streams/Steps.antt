-- ===== src/ControlPlane/Streams/Steps.antt =====
-- apps/control-plane-go/internal/backend/kubernetes: every request on a Lease leaves the transfer manager
-- as a run of its methods does.
use agent_sandbox_platform.Base.{
  ℕ, ◌||◌, Option, none, List, [], Bytes, bytes_eq, Bool-cases, inl, inr, ltb,
}
use agent_sandbox_platform.Base.Int.{ℤ, pos, ltb_ℤ}
use agent_sandbox_platform.Base.Result.{Result, ok, err}
use agent_sandbox_platform.ControlPlane.Lease.{Scope, Record, Error}
use agent_sandbox_platform.ControlPlane.Cluster.{Environment, Node, PodTarget, lift}
use agent_sandbox_platform.ControlPlane.Claims.{
  Backend, require_claim, delete_claim, stop_transfers,
}
use agent_sandbox_platform.ControlPlane.Requests.{
  ExecRequest, ReadFileRequest, WriteFileRequest, get_record, get_lease, release_record,
  release_lease, delete_lease, active_target, require_active_target, run_command, exec, read_file,
  write_file,
}
use agent_sandbox_platform.ControlPlane.Streams.{
  max_file_transfer_bytes, Route, FileDownload, Download, Upload, StreamWriteRequest, file_path,
  routed, prepare_record, prepare_transfer, begin_transfer, ended, opened_or_ended, receive,
  open_file, send, write_file_stream,
}
use agent_sandbox_platform.ControlPlane.Transfers.{
  begins, finishes, TransferManager, finish, perform, run,
}
use agent_sandbox_platform.ControlPlane.Requests.{
  timeout_invalid, target_for_claim, sh, read_command, encoding_or_utf8, write_command, write_input,
}
use agent_sandbox_platform.ControlPlane.Commands.{normalize_workspace_path, shell_command}
use agent_sandbox_platform.ControlPlane.Streams.Stepping.{
  Follows, Follows-refl, Follows-trans, Follows-one, Follows-run, IsStepping, IsStepping-after_call,
  IsStepping-bind, IsStepping-require_claim, IsStepping-delete_claim, IsStepping-stop_transfers,
  Follows-abandon, IsStepping-claimed,
}

module _ {World : Type 0} (env : Environment World) (b : Backend) where
  IsStepping-get_lease : (scope : Scope) (id : Bytes) → IsStepping (get_lease env b scope id)
  unfolding get_lease get_record
  IsStepping-get_lease scope id =
      IsStepping-claimed env b scope id (λ claim. get_record env b id)
        (λ claim lease node. elim (Bool-cases (ltb (env.now node.world) lease.expires_at)) [
          | inl e ↦ unfold get_record in rw (get_record, e) (Follows-refl node.transfers)
          | inr e ↦ unfold get_record in rw (get_record, e) (Follows-abandon env b id node)
        ])

  IsStepping-release_record :
      (id : Bytes) (lease : Record) → IsStepping (release_record env b id lease)
  unfolding release_record
  IsStepping-release_record id lease node =
      IsStepping-bind (stop_transfers env b id) _ (IsStepping-stop_transfers env b id)
        (λ u.
          IsStepping-bind (delete_claim env b id) _ (IsStepping-delete_claim env b id)
            (λ v n. Follows-refl n.transfers))
        node

  IsStepping-release_lease :
      (scope : Scope) (id : Bytes) → IsStepping (release_lease env b scope id)
  unfolding release_lease
  IsStepping-release_lease scope id =
      IsStepping-claimed env b scope id (λ claim. release_record env b id)
        (λ claim. IsStepping-release_record id)

  IsStepping-delete_lease : (scope : Scope) (id : Bytes) → IsStepping (delete_lease env b scope id)
  unfolding delete_lease
  IsStepping-delete_lease scope id =
      IsStepping-bind (require_claim env b scope id) _ (IsStepping-require_claim env b scope id)
        (λ claim.
          IsStepping-bind (stop_transfers env b id) _ (IsStepping-stop_transfers env b id)
            (λ u. IsStepping-delete_claim env b id))

  IsStepping-require_active_target :
      (scope : Scope) (id : Bytes) → IsStepping (require_active_target env b scope id)
  unfolding require_active_target
  IsStepping-require_active_target scope id =
      IsStepping-claimed env b scope id (active_target env b id) (λ claim lease node.
        elim (Bool-cases (ltb (env.now node.world) lease.expires_at)) [
          | inl e ↦ unfold active_target in rw (active_target, e) (Follows-refl node.transfers)
          | inr e ↦ unfold active_target in rw (active_target, e) (Follows-abandon env b id node)
        ])

  IsStepping-run_command :
      (target : PodTarget) (command : List Bytes) (input : Bytes) (timeout : Option ℤ)
      → IsStepping (run_command env b target command input timeout)
  unfolding run_command
  IsStepping-run_command target command input timeout node =
      elim (Bool-cases (timeout_invalid timeout)) [
        | inl e ↦ rw (run_command, e) (Follows-refl node.transfers)
        | inr e ↦ rw (run_command, e) (Follows-refl node.transfers)
      ]

  IsStepping-exec :
      (scope : Scope) (id : Bytes) (request : ExecRequest)
      → IsStepping (exec env b scope id request)
  unfolding exec
  IsStepping-exec scope id request =
      IsStepping-bind (require_active_target env b scope id) _
        (IsStepping-require_active_target scope id)
        (λ target.
          IsStepping-bind (lift (normalize_workspace_path request.cwd)) _
            (λ n. Follows-refl n.transfers)
            (λ cwd.
              IsStepping-bind (lift (shell_command cwd request.env request.command)) _
                (λ n. Follows-refl n.transfers)
                (λ command. IsStepping-run_command target (sh command) [] request.timeout_seconds)))

  IsStepping-read_file :
      (scope : Scope) (id : Bytes) (request : ReadFileRequest)
      → IsStepping (read_file env b scope id request)
  unfolding read_file
  IsStepping-read_file scope id request =
      IsStepping-bind (require_active_target env b scope id) _
        (IsStepping-require_active_target scope id)
        (λ target.
          IsStepping-bind (lift (normalize_workspace_path request.path)) _
            (λ n. Follows-refl n.transfers)
            (λ path.
              IsStepping-bind
                (run_command env b target
                  (sh (read_command (encoding_or_utf8 request.encoding) path)) [] none)
                _
                (IsStepping-run_command target
                  (sh (read_command (encoding_or_utf8 request.encoding) path)) [] none)
                (λ result. λ n. Follows-refl n.transfers)))

  IsStepping-write_file :
      (scope : Scope) (id : Bytes) (request : WriteFileRequest)
      → IsStepping (write_file env b scope id request)
  unfolding write_file
  IsStepping-write_file scope id request =
      IsStepping-bind (require_active_target env b scope id) _
        (IsStepping-require_active_target scope id)
        (λ target.
          IsStepping-bind (lift (normalize_workspace_path request.path)) _
            (λ n. Follows-refl n.transfers)
            (λ path.
              IsStepping-bind
                (run_command env b target (sh (write_command path))
                  (write_input request.encoding request.content) none)
                _
                (IsStepping-run_command target (sh (write_command path))
                  (write_input request.encoding request.content) none)
                (λ result. λ n. Follows-refl n.transfers)))

  module _ (download : Route → ℕ → World → Download × World)
      (upload : Route → StreamWriteRequest → ℕ → World → Upload × World) where
    IsStepping-prepare_transfer :
        (scope : Scope) (id path : Bytes)
        → IsStepping (prepare_transfer env b download upload scope id path)
    unfolding prepare_transfer
    IsStepping-prepare_transfer scope id path =
        IsStepping-claimed env b scope id (prepare_record env b download upload id path)
          (λ claim lease node. elim (Bool-cases (ltb (env.now node.world) lease.expires_at)) [
            | inl e ↦
                unfold prepare_record routed in
                rw (prepare_record, e)
                  (IsStepping-after_call
                    (file_path env b download upload (normalize_workspace_path path), node)
                    (routed env b download upload claim lease) node.transfers
                    (Follows-refl node.transfers)
                    (λ name next.
                      IsStepping-after_call
                        (target_for_claim env b claim lease.pool next.world, next) _ next.transfers
                        (Follows-refl next.transfers) (λ target last. Follows-refl last.transfers)))
            | inr e ↦
                unfold prepare_record in rw (prepare_record, e) (Follows-abandon env b id node)
          ])

    IsStepping-begin_transfer :
        (id : Bytes) (expires_at : ℕ)
        → IsStepping (begin_transfer env b download upload id expires_at)
    unfolding begin_transfer perform
    IsStepping-begin_transfer id expires_at node =
        Follows-one (begins (env.now node.world) id expires_at) node.transfers

    Follows-ended :
        (address : ℕ) (m : TransferManager) (node : Node World)
        → Follows m node.transfers
        → Follows m (ended env b download upload address node).transfers
    unfolding perform
    Follows-ended address m node f =
        Follows-trans m node.transfers (finish address node.transfers) f
          (Follows-one (finishes address) node.transfers)

    Follows-opened_or_ended :
        (address : ℕ) (result : Result Error FileDownload) (m : TransferManager) (node : Node World)
        → Follows m node.transfers
        → Follows m (opened_or_ended env b download upload address result node).1.transfers
    Follows-opened_or_ended address (err e) m node f = Follows-ended address m node f
    Follows-opened_or_ended address (ok file) m node f = f

    IsStepping-open_file :
        (scope : Scope) (id path : Bytes)
        → IsStepping (open_file env b download upload scope id path)
    unfolding open_file receive
    IsStepping-open_file scope id path =
        IsStepping-bind (prepare_transfer env b download upload scope id path) _
          (IsStepping-prepare_transfer scope id path)
          (λ route.
            IsStepping-bind (begin_transfer env b download upload id route.expires_at) _
              (IsStepping-begin_transfer id route.expires_at)
              (λ address node.
                Follows-opened_or_ended address _ node.transfers _
                  (Follows-run ((download route address node.world).0.others) node.transfers)))

    IsStepping-write_file_stream :
        (scope : Scope) (id : Bytes) (request : StreamWriteRequest)
        → IsStepping (write_file_stream env b download upload scope id request)
    unfolding write_file_stream send
    IsStepping-write_file_stream scope id request node =
        elim (Bool-cases
          (ltb_ℤ request.size_bytes (pos 0) || ltb_ℤ max_file_transfer_bytes request.size_bytes)) [
            | inl e ↦ rw (write_file_stream, e) (Follows-refl node.transfers)
            | inr e ↦
                rw (write_file_stream, e)
                  (IsStepping-bind (prepare_transfer env b download upload scope id request.path) _
                    (IsStepping-prepare_transfer scope id request.path)
                    (λ route.
                      IsStepping-bind (begin_transfer env b download upload id route.expires_at)
                        (send env b download upload request route)
                        (IsStepping-begin_transfer id route.expires_at)
                        (λ address next.
                          Follows-ended address next.transfers
                            (record next {
                              world = (upload route request address next.world).1;
                              transfers =
                                  run ((upload route request address next.world).0.others)
                                    next.transfers;
                            })
                            (Follows-run ((upload route request address next.world).0.others)
                              next.transfers)))
                    node)
          ]

    -- Whatever the requests on a Lease are and however they end, each leaves the transfer manager as a run
    -- of its methods does, with the calls of other goroutines among them: what holds of every run of the
    -- manager holds of the backend.
    pub requests-Follow :
        (scope : Scope) (id path : Bytes) (e : ExecRequest) (r : ReadFileRequest)
        (w : WriteFileRequest) (s : StreamWriteRequest) (node : Node World)
        → Follows node.transfers (get_lease env b scope id node).1.transfers
          × Follows node.transfers (release_lease env b scope id node).1.transfers
          × Follows node.transfers (delete_lease env b scope id node).1.transfers
          × Follows node.transfers (exec env b scope id e node).1.transfers
          × Follows node.transfers (read_file env b scope id r node).1.transfers
          × Follows node.transfers (write_file env b scope id w node).1.transfers
          × Follows node.transfers (open_file env b download upload scope id path node).1.transfers
          × Follows node.transfers
              ((write_file_stream env b download upload scope id s node).1.transfers)
    requests-Follow scope id path e r w s node = (
      IsStepping-get_lease scope id node,
      IsStepping-release_lease scope id node,
      IsStepping-delete_lease scope id node,
      IsStepping-exec scope id e node,
      IsStepping-read_file scope id r node,
      IsStepping-write_file scope id w node,
      IsStepping-open_file scope id path node,
      IsStepping-write_file_stream scope id s node,
    )
