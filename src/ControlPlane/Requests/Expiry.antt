-- ===== src/ControlPlane/Requests/Expiry.antt =====
-- apps/control-plane-go/internal/backend/kubernetes/backend.go and exec.go: a Lease that has expired
-- runs nothing any more and is taken away by the first request that sees it.
use agent_sandbox_platform.Base.{
  ℕ, Option, true, false, none, Bytes, ◌==◌, ◌||◌, bytes_eq, ltb, ◌≡◌, refl, sym, ap, ◌∙◌, arith,
  if◌then◌else◌,
}
use agent_sandbox_platform.Base.Int.{pos, ltb_ℤ}
use agent_sandbox_platform.ControlPlane.Markers.{transfer_too_large}
use agent_sandbox_platform.ControlPlane.Streams.{
  Route, Download, Upload, StreamWriteRequest, prepare_record, prepare_transfer, open_file,
  write_file_stream,
}
use agent_sandbox_platform.Base.Dict.{Dict, lookup}
use agent_sandbox_platform.Base.Result.{Result, ok, err}
use agent_sandbox_platform.ControlPlane.Lease.{Scope, Record, Error, expired}
use agent_sandbox_platform.ControlPlane.Cluster.{
  Claim, Environment, Node, after_call-ok, lift, ◌>>=◌,
}
use agent_sandbox_platform.ControlPlane.Claims.{
  Backend, record_from_claim, belongs, found_claim, require_claim, stop_transfers,
  stop_lease_and_delete, delete_claim, wait_transfers,
}
use agent_sandbox_platform.ControlPlane.Claims.Store.{
  Identity, living, IsStore, living-delete_claim, delete_claim-ok,
}
use agent_sandbox_platform.ControlPlane.Requests.{
  ExecRequest, ReadFileRequest, WriteFileRequest, get_lease, get_record, release_record,
  release_lease, delete_lease, abandon, exec, read_file, write_file, require_active_target,
  active_target, lease_not_active,
}

module _ {World : Type 0} (env : Environment World) (b : Backend) where
  -- The Lease of a claim has expired when a request reads it.
  pub record IsExpired (scope : Scope) (id : Bytes) (lease : Record) (w : World) : Type 0 where
    pub claim : Claim
    pub there : env.get_claim w id ≡ ok claim
    pub owned : belongs env b scope claim ≡ true
    pub readable : record_from_claim env b claim ≡ ok lease
    pub late : ltb (env.now w) lease.expires_at ≡ false

  require_active_target-expired :
      (scope : Scope) (id : Bytes) (lease : Record) (node : Node World)
      → IsExpired scope id lease node.world
      → require_active_target env b scope id node ≡ (err lease_not_active, abandon env b id node)
  unfolding require_active_target require_claim found_claim active_target
  require_active_target-expired scope id lease node h = rw (
    require_active_target, require_claim, h.there, found_claim, h.owned, h.readable, active_target,
    h.late,
  )

  prepare_transfer-expired :
      (download : Route → ℕ → World → Download × World)
      (upload : Route → StreamWriteRequest → ℕ → World → Upload × World) (scope : Scope)
      (id path : Bytes) (lease : Record) (node : Node World)
      → IsExpired scope id lease node.world
      → prepare_transfer env b download upload scope id path node
        ≡ (err lease_not_active, abandon env b id node)
  unfolding prepare_transfer require_claim found_claim prepare_record
  prepare_transfer-expired download upload scope id path lease node h = rw (
    prepare_transfer, require_claim, h.there, found_claim, h.owned, h.readable, prepare_record,
    h.late,
  )

  module _ (claims : World → Dict Bytes Claim) (store : IsStore env claims) where
    pub abandon-deletes :
        (id : Bytes) (node : Node World)
        → (stop_transfers env b id node).0 ≡ ok tt
        → living (lookup id (claims ((abandon env b id node).world))) ≡ none
    unfolding abandon stop_lease_and_delete
    abandon-deletes id node h =
        let ended =
          after_call-ok (stop_transfers env b id node) tt (λ u. delete_claim env b id) h in
        ap (λ r. living (lookup id (claims (r.1.world)))) ended
        ∙ living-delete_claim env b claims store id ((stop_transfers env b id node).1) id
        ∙ ground arith

    -- A Lease is taken away: its claim is gone or marked, and the claims of the others live as before.
    pub record IsTakenAway (id : Bytes) (before after : Node World) : Type 0 where
      pub gone : living (lookup id (claims after.world)) ≡ none
      pub others :
          (j : Bytes)
          → (j == id) ≡ false
          → living (lookup j (claims after.world)) ≡ living (lookup j (claims before.world))

    living-abandon :
        (id : Bytes) (node : Node World) (j : Bytes)
        → (stop_transfers env b id node).0 ≡ ok tt
        → living (lookup j (claims ((abandon env b id node).world)))
          ≡ (if j == id then none else living (lookup j (claims node.world)))
    unfolding abandon stop_lease_and_delete stop_transfers wait_transfers
    living-abandon id node j h =
        let ended =
          after_call-ok (stop_transfers env b id node) tt (λ u. delete_claim env b id) h in
        ap (λ r. living (lookup j (claims (r.1.world)))) ended
        ∙ living-delete_claim env b claims store id ((stop_transfers env b id node).1) j
        ∙ ap (λ (o : Option Identity). if j == id then none else o)
            (store.waiting_keeps node.world j)

    stop_lease_and_delete-ok :
        (id : Bytes) (node : Node World)
        → (stop_transfers env b id node).0 ≡ ok tt
        → stop_lease_and_delete env b id node ≡ (ok tt, abandon env b id node)
    unfolding abandon stop_lease_and_delete
    stop_lease_and_delete-ok id node h =
        let ended =
          after_call-ok (stop_transfers env b id node) tt (λ u. delete_claim env b id) h in
        let done = delete_claim-ok env b claims store id ((stop_transfers env b id node).1) in
        ground (arith, ended, done)

    release_record-expired :
        (id : Bytes) (lease : Record) (node : Node World)
        → (stop_transfers env b id node).0 ≡ ok tt
        → ltb (env.now node.world) lease.expires_at ≡ false
        → release_record env b id lease node
          ≡ (ok (record lease { status = expired }), abandon env b id node)
    unfolding release_record abandon stop_lease_and_delete
    release_record-expired id lease node h late =
        let said = record lease { status = expired } in
        let stop = stop_transfers env b id node in
        let next = λ (v : Unit {0}). lift {World = World} (ok said) in
        rw (release_record, late)
          (after_call-ok stop tt (λ u. delete_claim env b id >>= next) h
            ∙ after_call-ok (delete_claim env b id stop.1) tt next
                (delete_claim-ok env b claims store id stop.1)
            ∙ ap (λ (r : Result Error (Unit {0}) × Node World). (ok said, r.1))
                (sym (after_call-ok stop tt (λ u. delete_claim env b id) h)))

    -- A Lease that has expired is taken away by every request on it, and the claims of the others are
    -- left alone, when its transfers end before the request is given up: `Get` and `Release` say that
    -- it has expired, `Delete` deletes it, and `Exec`, `ReadFile`, `WriteFile`, `OpenFile` and
    -- `WriteFileStream` are refused; `WriteFileStream` with a size below 0 or above 64 MiB is refused
    -- for that and changes nothing. All leave the same state, so no command or transfer is run.
    pub requests-expired :
        (download : Route → ℕ → World → Download × World)
        (upload : Route → StreamWriteRequest → ℕ → World → Upload × World) (scope : Scope)
        (id : Bytes) (lease : Record) (node : Node World) (e : ExecRequest) (r : ReadFileRequest)
        (w : WriteFileRequest) (path : Bytes) (s : StreamWriteRequest)
        → IsExpired scope id lease node.world
        → (stop_transfers env b id node).0 ≡ ok tt
        → IsTakenAway id node (abandon env b id node)
          × (get_lease env b scope id node
              ≡ (ok (record lease { status = expired }), abandon env b id node))
          × (release_lease env b scope id node
              ≡ (ok (record lease { status = expired }), abandon env b id node))
          × (delete_lease env b scope id node ≡ (ok tt, abandon env b id node))
          × (exec env b scope id e node ≡ (err lease_not_active, abandon env b id node))
          × (read_file env b scope id r node ≡ (err lease_not_active, abandon env b id node))
          × (write_file env b scope id w node ≡ (err lease_not_active, abandon env b id node))
          × (open_file env b download upload scope id path node
              ≡ (err lease_not_active, abandon env b id node))
          × (write_file_stream env b download upload scope id s node ≡ (
              if ltb_ℤ s.size_bytes (pos 0) || ltb_ℤ (pos 67108864) s.size_bytes
              then (err transfer_too_large, node)
              else (err lease_not_active, abandon env b id node)))
    unfolding get_lease require_claim found_claim get_record exec read_file write_file delete_lease
        open_file write_file_stream release_lease stop_lease_and_delete
    requests-expired download upload scope id lease node e r w path s h ends =
        let refused = require_active_target-expired scope id lease node h in
        let stream =
          λ (p : Bytes). prepare_transfer-expired download upload scope id p lease node h in
        (
          record {
            gone = living-abandon id node id ends ∙ ground arith;
            others = λ j other. living-abandon id node j ends ∙ ground (arith, other);
          },
          rw (get_lease, require_claim, h.there, found_claim, h.owned, h.readable, h.late),
          rw (release_lease, require_claim, h.there, found_claim, h.owned, h.readable)
              (release_record-expired id lease node ends h.late),
          rw (delete_lease, require_claim, h.there, found_claim, h.owned)
              (stop_lease_and_delete-ok id node ends),
          rw refused refl,
          rw refused refl,
          rw refused refl,
          rw (stream path) refl,
          rw (stream s.path) refl,
        )
