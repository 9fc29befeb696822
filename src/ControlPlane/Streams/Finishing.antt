-- ===== src/ControlPlane/Streams/Finishing.antt =====
-- apps/control-plane-go/internal/backend/kubernetes/transfer.go: an operation that a file request begins
-- is over when the request has failed or has written its file, and runs on only for a download.
use agent_sandbox_platform.Base.{
  ℕ, ◌≡◌, ◌||◌, refl, ap, ◌∙◌, Bool, true, false, not, Option, none, some, [], Bytes, nat_eq,
  bytes_eq, ◌==◌, arith, Bool-cases, Option-cases, inl, inr,
}
use agent_sandbox_platform.Base.Dict.{lookup, lookup-insert}
use agent_sandbox_platform.Base.Int.{pos, ltb_ℤ}
use agent_sandbox_platform.Base.Result.{Result, ok, err}
use agent_sandbox_platform.ControlPlane.Lease.{Scope, Error}
use agent_sandbox_platform.ControlPlane.Cluster.{Environment, Node}
use agent_sandbox_platform.ControlPlane.Claims.{Backend}
use agent_sandbox_platform.ControlPlane.Markers.{TransferMarker}
use agent_sandbox_platform.ControlPlane.Streams.{
  Route, FileDownload, Download, Upload, StreamWriteRequest, max_file_transfer_bytes, opened,
  open_result, prepare_transfer, begin_transfer, opened_or_ended, receive, open_file, send,
  write_file_stream,
}
use agent_sandbox_platform.ControlPlane.Transfers.{
  TransferOperation, TransferManager, retire, finish,
}

-- Whether an address points to an operation that is not done.
abbrev pub is_unfinished : Option TransferOperation → Bool
is_unfinished none = false
is_unfinished (some op) = not op.done

unfinished-finish :
    (a : ℕ) (m : TransferManager) → is_unfinished (lookup a (finish a m).operations) ≡ false
unfolding finish retire
unfinished-finish a m = elim (Option-cases (lookup a m.operations)) [
  | inl e ↦ rw (finish, e) (ap is_unfinished e)
  | inr (op, e) ↦ elim (Bool-cases op.done) [
    | inl d ↦ rw (finish, e, d) (ap is_unfinished e ∙ ground (arith, d))
    | inr d ↦
        rw (finish, e, d)
          (ap is_unfinished
              (lookup-insert a a (record op { cancelled = true; done = true }) m.operations)
            ∙ ground arith)
  ]
]

opened-address :
    (address : ℕ) (marker : TransferMarker) (file : FileDownload)
    → opened address marker ≡ ok file
    → file.address ≡ address
unfolding opened
opened-address address marker file h = ground (arith, h)

open_result-address :
    (address : ℕ) (is_done : Bool) (marker : Result Error TransferMarker) (file : FileDownload)
    → open_result address is_done marker ≡ ok file
    → file.address ≡ address
unfolding open_result
open_result-address address is_done (err e) file h = absurd (ground (arith, h))
open_result-address address is_done (ok marker) file h = elim (Bool-cases (marker.code == [])) [
  | inr e ↦ absurd (ground (arith, h, e))
  | inl e ↦ elim (Bool-cases is_done) [
    | inl d ↦ absurd (ground (arith, h, e, d))
    | inr d ↦ opened-address address marker file (ground (arith, h, e, d))
  ]
]

-- How `OpenFile` leaves its operation: it goes on for the download that is given out, or is over.
pub data IsSettled (address : ℕ) (m : TransferManager) : Result Error FileDownload → Type 0 where
  given : (file : FileDownload) → file.address ≡ address → IsSettled address m (ok file)
  over :
      (e : Error)
      → is_unfinished (lookup address m.operations) ≡ false
      → IsSettled address m (err e)

module _ {World : Type 0} (env : Environment World) (b : Backend)
    (download : Route → ℕ → World → Download × World)
    (upload : Route → StreamWriteRequest → ℕ → World → Upload × World) where
  IsSettled-opened_or_ended :
      (address : ℕ) (result : Result Error FileDownload) (node : Node World)
      → ((file : FileDownload) → result ≡ ok file → file.address ≡ address)
      → IsSettled address
          ((opened_or_ended env b download upload address result node).1.transfers)
          ((opened_or_ended env b download upload address result node).0)
  IsSettled-opened_or_ended address (err e) node h =
      over e (unfinished-finish address node.transfers)
  IsSettled-opened_or_ended address (ok file) node h = given file (h file refl)

  IsSettled-receive :
      (route : Route) (address : ℕ) (node : Node World)
      → IsSettled address
          ((receive env b download upload route address node).1.transfers)
          ((receive env b download upload route address node).0)
  unfolding receive
  IsSettled-receive route address node =
      IsSettled-opened_or_ended address _ _ (λ file h. open_result-address address _ _ file h)

  -- When `OpenFile` or `WriteFileStream`, for the same path, has found its route and begun an operation,
  -- whatever happens then: after `WriteFileStream`, with a size from 0 to 64 MiB, the operation is over;
  -- after `OpenFile` it is over if the request failed, and is the one of the download otherwise.
  pub transfers-IsSettled :
      (scope : Scope) (id : Bytes) (s : StreamWriteRequest) (node next begun : Node World)
      (route : Route) (address : ℕ)
      → prepare_transfer env b download upload scope id s.path node ≡ (ok route, next)
      → begin_transfer env b download upload id route.expires_at next ≡ (ok address, begun)
      → (ltb_ℤ s.size_bytes (pos 0) || ltb_ℤ max_file_transfer_bytes s.size_bytes) ≡ false
      → (is_unfinished (
            lookup address
              ((write_file_stream env b download upload scope id s node).1.transfers.operations))
          ≡ false)
        × IsSettled address
            ((open_file env b download upload scope id s.path node).1.transfers)
            ((open_file env b download upload scope id s.path node).0)
  unfolding write_file_stream open_file send
  transfers-IsSettled scope id s node next begun route address prepared started fits = (
    rw (write_file_stream, prepared, started, fits) (unfinished-finish address _),
    rw (open_file, prepared, started) (IsSettled-receive route address begun),
  )
