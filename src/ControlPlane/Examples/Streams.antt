-- ===== src/ControlPlane/Examples/Streams.antt =====
-- apps/control-plane-go/internal/backend/kubernetes/transfer.go: the theorems on transfers over the small
-- API server.
use agent_sandbox_platform.Base.{ℕ, ◌≡◌, refl, false, [], ◌∷◌, ◌++◌, Bytes, bytes_eq, nat_eq}
use agent_sandbox_platform.Base.Dict.{lookup, insert, erase}
use agent_sandbox_platform.Base.Int.{pos, ltb_ℤ}
use agent_sandbox_platform.Base.Text.{bytes, split, cons_first, join, has_prefix, trim_space}
use agent_sandbox_platform.Codec.Decimal.{parse_int64}
use agent_sandbox_platform.Codec.Hexadecimal.{encode_hex, decode_hex}
use agent_sandbox_platform.Codec.PosixPath.{clean, absolute, resolve, climb, advance, relative}
use agent_sandbox_platform.ControlPlane.Buffers.{write, write_all, empty}
use agent_sandbox_platform.ControlPlane.Commands.{normalize_workspace_path}
use agent_sandbox_platform.ControlPlane.Cursors.{scope_hash, digest}
use agent_sandbox_platform.ControlPlane.Cluster.{Environment, label, annotation, Node}
use agent_sandbox_platform.Base.Result.{Result, ok}
use agent_sandbox_platform.ControlPlane.Lease.{Error}
use agent_sandbox_platform.ControlPlane.Claims.{
  build_claim, record_from_claim, found_claim, require_claim, belongs, stop_transfers,
  wait_transfers, all_done, delete_claim,
}
use agent_sandbox_platform.ControlPlane.Markers.{
  finished, parse_transfer_marker, marker_of, sized_marker, read_line, read_transfer_marker,
  map_transfer_run_error,
}
use agent_sandbox_platform.ControlPlane.Requests.{
  get_lease, release_lease, delete_lease, exec, read_file, write_file, target_for_claim,
  target_in_sandbox,
}
use agent_sandbox_platform.ControlPlane.Streams.{
  Route, FileDownload, Download, Upload, StreamWriteRequest, max_file_transfer_bytes,
  without_newline, opened, open_result, marker_result, upload_result, file_path, routed,
  prepare_record, prepare_transfer, begin_transfer, receive, open_file, send, write_file_stream,
}
use agent_sandbox_platform.ControlPlane.Streams.Draining.{IsDrained, by_delete, requests-IsCounted}
use agent_sandbox_platform.ControlPlane.Streams.Finishing.{
  is_unfinished, IsSettled, transfers-IsSettled,
}
use agent_sandbox_platform.ControlPlane.Transfers.Counting.{IsCounted, run-IsCounted}
use agent_sandbox_platform.ControlPlane.Streams.Outcomes.{
  IsRoute, IsConfirmed, write_file_stream-IsConfirmed, open_file-bounds,
}
use agent_sandbox_platform.ControlPlane.Transfers.{
  begins, finishes, stop_lease, cancel_all, finish, retire, begin, run, admit, begun, active_of,
  running, is_blocked, new_transfer_manager,
}
use agent_sandbox_platform.ControlPlane.Examples.Server.{
  claim_of, lease, ClaimStore, server, alice, backend, node,
}
use agent_sandbox_platform.ControlPlane.Examples.Backend.{exec_request, read_request, write_request}

abbrev digest_text : Bytes
digest_text = bytes "000102030405060708090a0b0c0d0e0f101112131415161718191a1b1c1d1e1f"

abbrev download : Route → ℕ → ClaimStore → Download × ClaimStore
download route address w = (
  record {
    stream = bytes "ASP1 OK 5 " ++ (digest_text ++ (10 ∷ bytes "hello"));
    end_of_run = finished;
    is_done = false;
    others = [];
  },
  w,
)

abbrev upload : Route → StreamWriteRequest → ℕ → ClaimStore → Upload × ClaimStore
upload route request address w = (
  record {
    stdout_chunks = bytes "ASP1 " ∷ (bytes "OK" ++ (10 ∷ [])) ∷ [];
    end_of_run = finished;
    is_done = false;
    input_count = 5;
    input_failed = false;
    others = [];
  },
  w,
)

abbrev stream_request : StreamWriteRequest
stream_request = record { path = bytes "notes.txt"; size_bytes = pos 5; sha256 = [] }

-- A Lease whose sandbox is ready.
abbrev ready_node : Node ClaimStore
ready_node = record {
  world =
      (
        bytes "lease-1",
        record (claim_of (lease (bytes "lease-1") 900)) { sandbox_name = bytes "box" },
      )
      ∷ [];
  transfers = new_transfer_manager 4 2 100;
}

write_file_stream-IsConfirmed_example :
    (ltb_ℤ (pos 5) (pos 0) ≡ false)
    × (ltb_ℤ max_file_transfer_bytes (pos 5) ≡ false)
    × (route : Route) × IsRoute server backend download upload alice
        (bytes "lease-1")
        (bytes "notes.txt")
        ready_node.world
        route
    × (address : ℕ) × (before : ClaimStore) × IsConfirmed
        ((upload route stream_request address before).0)
unfolding write_file_stream prepare_transfer require_claim found_claim belongs label lookup
    build_claim scope_hash digest encode_hex bytes_eq nat_eq record_from_claim annotation
    prepare_record file_path normalize_workspace_path clean absolute resolve climb advance relative
    split cons_first join has_prefix trim_space routed target_for_claim target_in_sandbox
    begin_transfer begin is_blocked active_of running new_transfer_manager admit begun insert send
    upload_result without_newline write write_all empty marker_result parse_transfer_marker
    marker_of
write_file_stream-IsConfirmed_example =
    write_file_stream-IsConfirmed server backend download upload alice (bytes "lease-1")
      stream_request ready_node refl

abbrev file : FileDownload
unfolding decode_hex
file = record {
  address = 0;
  size_bytes = pos 5;
  sha256 =
      0 ∷ 1 ∷ 2 ∷ 3 ∷ 4 ∷ 5 ∷ 6 ∷ 7 ∷ 8 ∷ 9 ∷ 10 ∷ 11 ∷ 12 ∷ 13 ∷ 14 ∷ 15 ∷ 16 ∷ 17 ∷ 18 ∷ 19 ∷ 20
      ∷ 21 ∷ 22 ∷ 23 ∷ 24 ∷ 25 ∷ 26 ∷ 27 ∷ 28 ∷ 29 ∷ 30 ∷ 31 ∷ [];
}

open_file-bounds_example :
    (ltb_ℤ (pos 5) (pos 0) ≡ false)
    × (ltb_ℤ max_file_transfer_bytes (pos 5) ≡ false)
    × (route : Route) × IsRoute server backend download upload alice
        (bytes "lease-1")
        (bytes "notes.txt")
        ready_node.world
        route
    × (before : ClaimStore) × ((download route 0 before).0.is_done ≡ false)
unfolding open_file prepare_transfer require_claim found_claim belongs label lookup build_claim
    scope_hash digest encode_hex bytes_eq nat_eq record_from_claim annotation prepare_record
    file_path normalize_workspace_path clean absolute resolve climb advance relative split
    cons_first join has_prefix trim_space routed target_for_claim target_in_sandbox begin_transfer
    begin is_blocked active_of running new_transfer_manager admit begun insert receive open_result
    opened read_transfer_marker read_line map_transfer_run_error parse_transfer_marker marker_of
    sized_marker parse_int64 decode_hex run file
open_file-bounds_example =
    open_file-bounds server backend download upload alice (bytes "lease-1") (bytes "notes.txt")
      ready_node file refl

-- A node where one transfer of the Lease runs, which another goroutine finishes.
abbrev busy_node : Node ClaimStore
busy_node = record node { transfers = run (begins 500 (bytes "lease-1") 900 ∷ []) node.transfers }

busy_node-IsCounted : IsCounted busy_node.transfers
busy_node-IsCounted = run-IsCounted 4 2 100 (begins 500 (bytes "lease-1") 900 ∷ [])

-- The API server, with the calls of other goroutines while a request waits.
abbrev finishing : Environment ClaimStore
finishing = record server { waiting = λ w. (finishes 0 ∷ [], w) }

abbrev removal : Result Error (Unit {0}) × Node ClaimStore
removal = delete_lease finishing backend alice (bytes "lease-1") busy_node

removed_now : delete_lease finishing backend alice (bytes "lease-1") busy_node ≡ (ok tt, removal.1)
unfolding delete_lease require_claim found_claim belongs label lookup build_claim scope_hash digest
    encode_hex bytes_eq nat_eq stop_transfers wait_transfers stop_lease all_done run begin
    is_blocked active_of running new_transfer_manager admit begun insert cancel_all finish retire
    erase delete_claim
removed_now = refl

requests-IsCounted_example :
    IsDrained (bytes "lease-1") (removal.1.transfers)
    × IsCounted (get_lease finishing backend alice (bytes "lease-1") busy_node).1.transfers
    × IsCounted (release_lease finishing backend alice (bytes "lease-1") busy_node).1.transfers
    × IsCounted (delete_lease finishing backend alice (bytes "lease-1") busy_node).1.transfers
    × IsCounted (exec finishing backend alice (bytes "lease-1") exec_request busy_node).1.transfers
    × IsCounted
        ((read_file finishing backend alice (bytes "lease-1") read_request busy_node).1.transfers)
    × IsCounted
        ((write_file finishing backend alice (bytes "lease-1") write_request busy_node).1.transfers)
    × IsCounted (
        (open_file finishing backend download upload alice
          (bytes "lease-1")
          (bytes "a")
          busy_node).1.transfers)
    × IsCounted (
        (write_file_stream finishing backend download upload alice
          (bytes "lease-1")
          stream_request
          busy_node).1.transfers)
requests-IsCounted_example =
    requests-IsCounted finishing backend download upload alice (bytes "lease-1") (bytes "a")
      exec_request read_request write_request stream_request busy_node removal.1 busy_node-IsCounted
      (by_delete removed_now)

abbrev notes_route : Route
notes_route = record {
  target = record { pod = bytes "pod"; container = bytes "main" };
  expires_at = 900;
  path = bytes "/workspace/notes.txt";
}

abbrev begun_notes : Node ClaimStore
begun_notes = (begin_transfer server backend download upload (bytes "lease-1") 900 ready_node).1

transfers-IsSettled_example :
    (is_unfinished (
        lookup 0 (
          (write_file_stream server backend download upload alice
            (bytes "lease-1")
            stream_request
            ready_node).1.transfers.operations))
      ≡ false)
    × IsSettled 0
        ((open_file server backend download upload alice
          (bytes "lease-1")
          (bytes "notes.txt")
          ready_node).1.transfers)
        ((open_file server backend download upload alice
          (bytes "lease-1")
          (bytes "notes.txt")
          ready_node).0)
unfolding prepare_transfer require_claim found_claim belongs label lookup build_claim scope_hash
    digest encode_hex bytes_eq nat_eq record_from_claim annotation prepare_record file_path
    normalize_workspace_path clean absolute resolve climb advance relative split cons_first join
    has_prefix trim_space routed target_for_claim target_in_sandbox begin_transfer begin is_blocked
    active_of running new_transfer_manager admit begun insert
transfers-IsSettled_example =
    transfers-IsSettled server backend download upload alice (bytes "lease-1") stream_request
      ready_node ready_node begun_notes notes_route 0 refl refl refl
