-- ===== src/ControlPlane/Examples/Backend.antt =====
-- apps/control-plane-go/internal/backend/kubernetes: the theorems on Acquire and on the requests on a
-- Lease over the small API server.
use agent_sandbox_platform.Base.{
  ℕ, ◌+◌, ◌*◌, ◌≡◌, refl, true, false, [], ◌∷◌, bytes_eq, nat_eq, none, some, arith, inl, inr,
  Occurs, sym, ◌∙◌,
}
use agent_sandbox_platform.Base.Dict.{lookup, insert}
use agent_sandbox_platform.Base.Int.{pos}
use agent_sandbox_platform.Base.Result.{Result, ok, err}
use agent_sandbox_platform.Base.Text.{bytes}
use agent_sandbox_platform.Codec.Hexadecimal.{encode_hex}
use agent_sandbox_platform.ControlPlane.Lease.{
  Record, AcquireResult, expired, Error, not_found, typed,
}
use agent_sandbox_platform.ControlPlane.Cursors.{scope_hash, idempotency_hash, digest}
use agent_sandbox_platform.ControlPlane.Cluster.{Claim, Node, label, annotation}
use agent_sandbox_platform.ControlPlane.Claims.{
  idempotency_label, build_claim, record_from_claim, belongs, stop_transfers, wait_transfers,
  all_done,
}
use agent_sandbox_platform.ControlPlane.Claims.Store.{living}
use agent_sandbox_platform.ControlPlane.Acquire.{
  AcquireRequest, idempotency_selector, acquire_lease, create_lease, created_lease, await_lease,
  wait_for_ready_claim, polled, verify_runtime, discard, new_record, add_seconds,
}
use agent_sandbox_platform.ControlPlane.Acquire.Replays.{acquire_lease-replays}
use agent_sandbox_platform.ControlPlane.Acquire.Cleanup.{living-create_lease}
use agent_sandbox_platform.ControlPlane.Acquire.Reading.{create_lease-get_lease}
use agent_sandbox_platform.ControlPlane.Requests.{
  ExecRequest, ReadFileRequest, WriteFileRequest, get_lease, release_lease, delete_lease, exec,
  read_file, write_file, abandon, lease_not_active,
}
use agent_sandbox_platform.ControlPlane.Markers.{broke}
use agent_sandbox_platform.ControlPlane.Streams.{
  Route, Download, Upload, StreamWriteRequest, open_file, write_file_stream,
}
use agent_sandbox_platform.ControlPlane.Requests.Isolation.{requests-foreign}
use agent_sandbox_platform.ControlPlane.Requests.Expiry.{
  IsTakenAway, requests-expired, abandon-deletes,
}
use agent_sandbox_platform.ControlPlane.Transfers.{
  new_transfer_manager, stop_lease, run, cancel_all, active_of,
}
use agent_sandbox_platform.ControlPlane.Examples.Server.{
  ClaimStore, values, selected_of, packages, server, server-IsStore, alice, mallory, pool,
  strange_pool, backend, lease, claim_of, world, node, Occurs-values, server-IsListing,
}

abbrev request : AcquireRequest
request = record { pool = bytes "small"; idempotency_key = bytes "key"; ttl_seconds = none }

-- A Lease of another key, and the one of the request's.
abbrev two_keys : ClaimStore
two_keys =
    (
      bytes "lease-0",
      build_claim server backend (lease (bytes "lease-0") 900) alice (bytes "other") pool,
    )
    ∷ (bytes "lease-1", claim_of (lease (bytes "lease-1") 900))
    ∷ []

two_keys-named : (c : Claim) → Occurs c (values two_keys) → lookup c.name two_keys ≡ some c
unfolding lookup build_claim bytes_eq
two_keys-named c (inl e) = rw e refl
two_keys-named c (inr (inl e)) = rw e refl
two_keys-named c (inr (inr never)) = absurd never

abbrev replaying : Node ClaimStore
replaying = record { world = two_keys; transfers = new_transfer_manager 4 2 100 }

different_keys :
    some (idempotency_hash packages (bytes "s") alice (bytes "other"))
      ≡ some (idempotency_hash packages (bytes "s") alice (bytes "key"))
    → ⊥
unfolding idempotency_hash digest encode_hex bytes_eq
different_keys e = ground (arith, e)

only_keyed :
    (c : Claim)
    → Occurs c (values two_keys)
    → lookup idempotency_label c.labels
      ≡ some (idempotency_hash packages (bytes "s") alice (bytes "key"))
    → c ≡ claim_of (lease (bytes "lease-1") 900)
unfolding lookup build_claim idempotency_hash digest encode_hex bytes_eq
only_keyed c (inl e) h =
    let other : lookup idempotency_label c.labels
        ≡ some (idempotency_hash packages (bytes "s") alice (bytes "other")) =
      rw e refl in
    absurd (different_keys (sym other ∙ h))
only_keyed c (inr (inl e)) h = e
only_keyed c (inr (inr never)) h = absurd never

acquire_lease-replays_example :
    acquire_lease server backend alice request replaying
    ≡ (ok (record { lease = lease (bytes "lease-1") 900; replayed = true }), replaying)
unfolding lookup build_claim bytes_eq
acquire_lease-replays_example =
    acquire_lease-replays server backend (λ w. w) alice request replaying pool pool
      (record {
        items =
            selected_of (idempotency_selector server backend alice (bytes "key")) (values two_keys);
        continue = [];
      })
      (claim_of (lease (bytes "lease-1") 900)) (lease (bytes "lease-1") 900)
      (server-IsListing two_keys two_keys-named) refl refl refl refl refl refl refl refl refl refl
      refl refl (λ c there d m s k. only_keyed c (Occurs-values c.name c two_keys there) k)

living-create_lease_example :
    living (
      lookup
        (bytes "lease-1")
        ((create_lease server backend strange_pool (pos 900) alice request node).1.world))
    ≡ living (lookup (bytes "lease-1") world)
unfolding lookup build_claim create_lease created_lease await_lease wait_for_ready_claim polled
    verify_runtime discard new_record encode_hex insert bytes_eq
living-create_lease_example =
    living-create_lease server backend (λ w. w) server-IsStore strange_pool (pos 900) alice request
      node (typed 502 "RUNTIME_CLASS_MISMATCH" "Sandbox runtime class does not match Pool policy")
      (bytes "lease-1") refl

abbrev attempt : Result Error AcquireResult × Node ClaimStore
attempt = create_lease server backend pool (pos 60) alice request node

abbrev granted : Record
granted = new_record server backend (pos 60) request world

create_lease-get_lease_example :
    (granted.expires_at ≡ 500 + 60 * 1000000000)
    × (false ≡ false)
    × (get_lease server backend alice granted.id attempt.1 ≡ (ok granted, attempt.1))
unfolding lookup build_claim create_lease created_lease await_lease wait_for_ready_claim polled
    verify_runtime new_record add_seconds encode_hex insert bytes_eq
create_lease-get_lease_example =
    create_lease-get_lease server backend (λ w. w) server-IsStore pool 60 alice request node
      attempt.1 (record { lease = granted; replayed = false }) (omega arith) refl refl refl refl

abbrev pub exec_request : ExecRequest
exec_request = record { command = bytes "ls"; cwd = []; env = []; timeout_seconds = none }

abbrev pub read_request : ReadFileRequest
read_request = record { path = bytes "a"; encoding = [] }

abbrev pub write_request : WriteFileRequest
write_request = record { path = bytes "a"; content = []; encoding = [] }

abbrev stream_request : StreamWriteRequest
stream_request = record { path = bytes "a"; size_bytes = pos 3; sha256 = [] }

-- A transfer that breaks at once.
abbrev no_download : Route → ℕ → ClaimStore → Download × ClaimStore
no_download route address w =
    (record { stream = []; end_of_run = broke; is_done = false; others = [] }, w)

abbrev no_upload : Route → StreamWriteRequest → ℕ → ClaimStore → Upload × ClaimStore
no_upload route r address w = (
  record {
    stdout_chunks = [];
    end_of_run = broke;
    is_done = false;
    input_count = 0;
    input_failed = false;
    others = [];
  },
  w,
)

requests-foreign_example :
    (get_lease server backend mallory (bytes "lease-1") node ≡ (err not_found, node))
    × (release_lease server backend mallory (bytes "lease-1") node ≡ (err not_found, node))
    × (delete_lease server backend mallory (bytes "lease-1") node ≡ (err not_found, node))
    × (exec server backend mallory (bytes "lease-1") exec_request node ≡ (err not_found, node))
    × (read_file server backend mallory (bytes "lease-1") read_request node ≡ (err not_found, node))
    × (write_file server backend mallory (bytes "lease-1") write_request node
        ≡ (err not_found, node))
    × (open_file server backend no_download no_upload mallory (bytes "lease-1") (bytes "a") node
        ≡ (err not_found, node))
    × (write_file_stream server backend no_download no_upload mallory
          (bytes "lease-1")
          stream_request
          node
        ≡ (err not_found, node))
unfolding lookup label build_claim scope_hash digest encode_hex bytes_eq
requests-foreign_example =
    requests-foreign server backend no_download no_upload mallory (bytes "lease-1") node
      exec_request read_request write_request (bytes "a") stream_request
      (inr (claim_of (lease (bytes "lease-1") 900), refl, λ e. ground (arith, e)))

abbrev gone : Node ClaimStore
gone = abandon server backend (bytes "lease-2") node

requests-expired_example :
    IsTakenAway server backend (λ w. w) server-IsStore (bytes "lease-2") node gone
    × (get_lease server backend alice (bytes "lease-2") node
        ≡ (ok (record (lease (bytes "lease-2") 400) { status = expired }), gone))
    × (release_lease server backend alice (bytes "lease-2") node
        ≡ (ok (record (lease (bytes "lease-2") 400) { status = expired }), gone))
    × (delete_lease server backend alice (bytes "lease-2") node ≡ (ok tt, gone))
    × (exec server backend alice (bytes "lease-2") exec_request node ≡ (err lease_not_active, gone))
    × (read_file server backend alice (bytes "lease-2") read_request node
        ≡ (err lease_not_active, gone))
    × (write_file server backend alice (bytes "lease-2") write_request node
        ≡ (err lease_not_active, gone))
    × (open_file server backend no_download no_upload alice (bytes "lease-2") (bytes "a") node
        ≡ (err lease_not_active, gone))
    × (write_file_stream server backend no_download no_upload alice
          (bytes "lease-2")
          stream_request
          node
        ≡ (err lease_not_active, gone))
unfolding lookup label annotation build_claim record_from_claim belongs scope_hash digest encode_hex
    bytes_eq stop_transfers wait_transfers stop_lease run cancel_all active_of all_done
    new_transfer_manager
requests-expired_example =
    requests-expired server backend (λ w. w) server-IsStore no_download no_upload alice
      (bytes "lease-2") (lease (bytes "lease-2") 400) node exec_request read_request write_request
      (bytes "a") stream_request
      (record {
        claim = claim_of (lease (bytes "lease-2") 400);
        there = refl;
        owned = refl;
        readable = refl;
        late = refl;
      })
      refl

abandon-deletes_example : living (lookup (bytes "lease-2") (gone.world)) ≡ none
unfolding stop_transfers wait_transfers stop_lease run cancel_all active_of all_done lookup insert
    bytes_eq new_transfer_manager
abandon-deletes_example =
    abandon-deletes server backend (λ w. w) server-IsStore (bytes "lease-2") node refl
