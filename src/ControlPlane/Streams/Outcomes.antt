-- ===== src/ControlPlane/Streams/Outcomes.antt =====
-- apps/control-plane-go/internal/backend/kubernetes/transfer.go: what it means that a transfer succeeded.
use agent_sandbox_platform.Base.{
  ℕ, Bool, true, false, ◌&&◌, ◌||◌, Option, none, some, [], Bytes, ◌==◌, bytes_eq, ltb, ◌≡◌, refl,
  ap, ◌∙◌, arith, Bool-cases, Option-cases, inl, inr,
}
use agent_sandbox_platform.Base.Int.{pos, leb_ℤ, ltb_ℤ}
use agent_sandbox_platform.Base.Result.{Result, ok, err}
use agent_sandbox_platform.ControlPlane.Buffers.{empty, write_all}
use agent_sandbox_platform.ControlPlane.Commands.{normalize_workspace_path, workspace_path}
use agent_sandbox_platform.ControlPlane.Lease.{Scope, Record, Error}
use agent_sandbox_platform.ControlPlane.Cluster.{Claim, Environment, Node, after_call, ◌>>=◌, lift}
use agent_sandbox_platform.ControlPlane.Claims.{
  Backend, record_from_claim, require_claim, found_claim,
}
use agent_sandbox_platform.ControlPlane.Markers.{
  TransferMarker, StreamEnd, finished, interrupted, broke, max_transfer_marker_bytes,
  parse_transfer_marker, map_transfer_run_error,
}
use agent_sandbox_platform.ControlPlane.Requests.{target_for_claim}
use agent_sandbox_platform.ControlPlane.Streams.{
  FileDownload, opened, open_result, opened_or_ended, receive, open_file, Route, Download, Upload,
  StreamWriteRequest, max_file_transfer_bytes, without_newline, is_clean, run_failure,
  marker_result, upload_result, file_path, routed, prepare_record, prepare_transfer, begin_transfer,
  send, write_file_stream,
}

after_call-inverse :
    {S A B : Type 0} (r : Result Error A × S) (next : A → S → Result Error B × S) (c : B)
    → (after_call r next).0 ≡ ok c
    → (a : A) × (r.0 ≡ ok a) × ((next a r.1).0 ≡ ok c)
after_call-inverse (err e, s) next c h = absurd (ground (arith, h))
after_call-inverse (ok a, s) next c h = (a, refl, h)

-- A write that the helper has confirmed: the transfer's context was alive, the helper ended without an
-- error, and all that it said, within the limit, is that it is done.
pub record IsConfirmed (upload : Upload) : Type 0 where
  pub marker : TransferMarker
  pub alive : upload.is_done ≡ false
  pub clean : upload.end_of_run ≡ finished
  pub whole : (write_all upload.stdout_chunks (empty max_transfer_marker_bytes)).exceeded ≡ false
  pub said :
      parse_transfer_marker
        (without_newline (write_all upload.stdout_chunks (empty max_transfer_marker_bytes)).value)
      ≡ some marker
  pub unblamed : marker.code ≡ []

is_clean-finished : (ended : StreamEnd) → is_clean ended ≡ true → ended ≡ finished
is_clean-finished finished h = refl
is_clean-finished interrupted h = absurd (ground (arith, h))
is_clean-finished broke h = absurd (ground (arith, h))

run_failure-fails : (upload : Upload) → run_failure upload ≡ ok tt → ⊥
unfolding run_failure
run_failure-fails upload h = elim (Option-cases (map_transfer_run_error false upload.end_of_run)) [
  | inl e ↦ ground (arith, h, e)
  | inr (failure, e) ↦ ground (arith, h, e)
]

marker_result-ok :
    (upload : Upload) (found : Option TransferMarker)
    → marker_result upload found ≡ ok tt
    → (marker : TransferMarker) × (found ≡ some marker)
      × (marker.code ≡ [])
      × (upload.end_of_run ≡ finished)
unfolding marker_result
marker_result-ok upload none h = absurd (run_failure-fails upload h)
marker_result-ok upload (some marker) h = elim (Bool-cases (marker.code == [])) [
  | inr e ↦ absurd (ground (arith, h, e))
  | inl e ↦ elim (Bool-cases (is_clean upload.end_of_run)) [
    | inl c ↦ (marker, refl, ground (arith, e), is_clean-finished upload.end_of_run c)
    | inr c ↦ absurd (run_failure-fails upload (ground (arith, h, e, c)))
  ]
]

upload_result-IsConfirmed :
    (request : StreamWriteRequest) (upload : Upload)
    → upload_result request upload ≡ ok tt
    → IsConfirmed upload
unfolding upload_result
upload_result-IsConfirmed request upload h =
    let stdout = write_all upload.stdout_chunks (empty max_transfer_marker_bytes) in
    elim (Bool-cases upload.is_done) [
      | inl a ↦ absurd (ground (arith, h, a))
      | inr a ↦
          elim (Bool-cases
            (upload.input_failed && leb_ℤ request.size_bytes (pos upload.input_count))) [
              | inl b ↦ absurd (ground (arith, h, a, b))
              | inr b ↦ elim (Bool-cases stdout.exceeded) [
                | inl c ↦ absurd (run_failure-fails upload (ground (arith, h, a, b, c)))
                | inr c ↦
                    let (marker, said, unblamed, clean) =
                      marker_result-ok upload (parse_transfer_marker (without_newline stdout.value))
                        (ground (arith, h, a, b, c)) in
                    record {
                      marker = marker;
                      alive = a;
                      clean = clean;
                      whole = c;
                      said = said;
                      unblamed = unblamed;
                    }
              ]
            ]
    ]

module _ {World : Type 0} (env : Environment World) (b : Backend)
    (download : Route → ℕ → World → Download × World)
    (upload : Route → StreamWriteRequest → ℕ → World → Upload × World) where
  -- A route leads to a file of the workspace in the Pod of a Lease of the scope that has not expired.
  pub record IsRoute (scope : Scope) (id requested : Bytes) (w : World) (route : Route)
      : Type 0 where
    pub claim : Claim
    pub lease : Record
    pub owned : found_claim env b scope (env.get_claim w id) ≡ ok claim
    pub readable : record_from_claim env b claim ≡ ok lease
    pub alive : ltb (env.now w) lease.expires_at ≡ true
    pub normal : normalize_workspace_path requested ≡ ok route.path
    pub below : (route.path == workspace_path) ≡ false
    pub placed : target_for_claim env b claim lease.pool w ≡ ok route.target
    pub deadline : route.expires_at ≡ lease.expires_at

  file_path-ok :
      (result : Result Error Bytes) (path : Bytes)
      → file_path env b download upload result ≡ ok path
      → (result ≡ ok path) × ((path == workspace_path) ≡ false)
  unfolding file_path
  file_path-ok (err e) path h = absurd (ground (arith, h))
  file_path-ok (ok p) path h = (ground (arith, h), ground (arith, h))

  prepare_transfer-IsRoute :
      (scope : Scope) (id requested : Bytes) (node : Node World) (route : Route)
      → (prepare_transfer env b download upload scope id requested node).0 ≡ ok route
      → IsRoute scope id requested node.world route
  unfolding prepare_transfer require_claim prepare_record routed
  prepare_transfer-IsRoute scope id requested node route h =
      let (claim, owned, h₁) =
        after_call-inverse (require_claim env b scope id node)
          (λ claim.
            lift (record_from_claim env b claim)
            >>= prepare_record env b download upload id requested claim)
          route h in
      let (lease, readable, h₂) =
        after_call-inverse (record_from_claim env b claim, node)
          (prepare_record env b download upload id requested claim) route h₁ in
      elim (Bool-cases (ltb (env.now node.world) lease.expires_at)) [
        | inr e ↦ absurd (ground (arith, h₂, e))
        | inl e ↦
            let (path, named, h₃) =
              after_call-inverse
                (file_path env b download upload (normalize_workspace_path requested), node)
                (routed env b download upload claim lease) route (ground (arith, h₂, e)) in
            let (target, placed, h₄) =
              after_call-inverse (target_for_claim env b claim lease.pool node.world, node)
                (λ target next. (
                  ok (record { target = target; expires_at = lease.expires_at; path = path }),
                  next,
                ))
                route h₃ in
            let (normal, below) = file_path-ok (normalize_workspace_path requested) path named in
            record {
              claim = claim;
              lease = lease;
              owned = owned;
              readable = readable;
              alive = e;
              normal = ground (arith, normal, h₄);
              below = ground (arith, below, h₄);
              placed = ground (arith, placed, h₄);
              deadline = ground (arith, h₄);
            }
      ]

  -- `WriteFileStream` succeeds only for a size within the limit, on a Lease of the scope that has not
  -- expired, for a path below the workspace, in the Lease's Pod, and when the helper has confirmed the
  -- write: a broken run, an output that is cut, another answer or a cancelled transfer is never a
  -- success.
  pub write_file_stream-IsConfirmed :
      (scope : Scope) (id : Bytes) (request : StreamWriteRequest) (node : Node World)
      → (write_file_stream env b download upload scope id request node).0 ≡ ok tt
      → (ltb_ℤ request.size_bytes (pos 0) ≡ false)
        × (ltb_ℤ max_file_transfer_bytes request.size_bytes ≡ false)
        × (route : Route) × IsRoute scope id request.path node.world route
        × (address : ℕ) × (before : World) × IsConfirmed ((upload route request address before).0)
  unfolding write_file_stream send
  write_file_stream-IsConfirmed scope id request node h =
      elim (Bool-cases
        (ltb_ℤ request.size_bytes (pos 0) || ltb_ℤ max_file_transfer_bytes request.size_bytes)) [
          | inl a ↦ absurd (ground (arith, h, a))
          | inr a ↦
              let prepared = prepare_transfer env b download upload scope id request.path node in
              let (route, routes, h₁) =
                after_call-inverse prepared
                  (λ route.
                    begin_transfer env b download upload id route.expires_at
                    >>= send env b download upload request route)
                  tt (ground (arith, h, a)) in
              let begun = begin_transfer env b download upload id route.expires_at (prepared.1) in
              let (address, admitted, h₂) =
                after_call-inverse begun (send env b download upload request route) tt h₁ in
              (
                ground (arith, a),
                ground (arith, a),
                route,
                prepare_transfer-IsRoute scope id request.path node route routes,
                address,
                begun.1.world,
                upload_result-IsConfirmed request ((upload route request address begun.1.world).0)
                    h₂,
              )
        ]

  opened-bounds :
      (address : ℕ) (is_done : Bool) (found : Result Error TransferMarker) (file : FileDownload)
      → open_result address is_done found ≡ ok file
      → (file.address ≡ address)
        × (is_done ≡ false)
        × (ltb_ℤ file.size_bytes (pos 0) ≡ false)
        × (ltb_ℤ max_file_transfer_bytes file.size_bytes ≡ false)
  unfolding open_result opened
  opened-bounds address is_done (err e) file h = absurd (ground (arith, h))
  opened-bounds address is_done (ok marker) file h =
      (ground (arith, h), ground (arith, h), ground (arith, h), ground (arith, h))

  opened_or_ended-ok :
      (address : ℕ) (result : Result Error FileDownload) (node : Node World) (file : FileDownload)
      → (opened_or_ended env b download upload address result node).0 ≡ ok file
      → result ≡ ok file
  opened_or_ended-ok address (err e) node file h = absurd (ground (arith, h))
  opened_or_ended-ok address (ok found) node file h = h

  -- `OpenFile` gives out a download only on a Lease of the scope that has not expired, for a path below
  -- the workspace, while the transfer's context is alive, and with a size between 0 and the limit.
  pub open_file-bounds :
      (scope : Scope) (id requested : Bytes) (node : Node World) (file : FileDownload)
      → (open_file env b download upload scope id requested node).0 ≡ ok file
      → (ltb_ℤ file.size_bytes (pos 0) ≡ false)
        × (ltb_ℤ max_file_transfer_bytes file.size_bytes ≡ false)
        × (route : Route) × IsRoute scope id requested node.world route
        × (before : World) × ((download route file.address before).0.is_done ≡ false)
  unfolding open_file receive
  open_file-bounds scope id requested node file h =
      let prepared = prepare_transfer env b download upload scope id requested node in
      let (route, routes, h₁) =
        after_call-inverse prepared
          (λ route.
            begin_transfer env b download upload id route.expires_at
            >>= receive env b download upload route)
          file h in
      let begun = begin_transfer env b download upload id route.expires_at (prepared.1) in
      let (address, admitted, h₂) =
        after_call-inverse begun (receive env b download upload route) file h₁ in
      let got = (download route address begun.1.world).0 in
      let (same, alive, low, high) =
        opened-bounds address got.is_done _ file (opened_or_ended-ok address _ _ file h₂) in
      (
        low,
        high,
        route,
        prepare_transfer-IsRoute scope id requested node route routes,
        begun.1.world,
        ap (λ (a : ℕ). (download route a begun.1.world).0.is_done) same ∙ alive,
      )
