-- ===== src/ControlPlane/Transfers/Draining.antt =====
-- apps/control-plane-go/internal/backend/kubernetes/transfer.go: a Lease whose transfers were stopped
-- takes no new one, and none of them runs once those that `stopLease` waits for are done.
use agent_sandbox_platform.Base.{
  ℕ, ◌≡◌, Bool, true, false, not, ◌&&◌, ◌||◌, ◌∙◌, refl, Option, none, some, List, [], ◌∷◌, Bytes,
  ◌==◌, leb, arith, nat_eq, bytes_eq, Option-cases, Bool-cases, inl, inr,
}
use agent_sandbox_platform.Base.Result.{err}
use agent_sandbox_platform.Base.Dict.{Dict, lookup, lookup-erase, lookup-insert}
use agent_sandbox_platform.ControlPlane.Lease.{aborted}
use agent_sandbox_platform.ControlPlane.Transfers.{
  Addresses, TransferManager, TransferOperation, active_of, running, is_blocked, admit, begun,
  retire, cancel_all, begin, finish, stop_lease, close_transfers, cancel_leases, Action, begins,
  finishes, stops, closes, perform, run, new_transfer_manager,
}
use agent_sandbox_platform.ControlPlane.Transfers.Laws.{
  active_of-admit, active_of-retire, is_bound, lookup-cancel_all,
}
use agent_sandbox_platform.ControlPlane.Transfers.Counting.{
  size, IsCounted, run_from-IsCounted, run-IsCounted, perform-IsCounted,
}

-- Whether an address points to an operation that runs, its context not cancelled.
abbrev pub is_uncancelled : Option TransferOperation → Bool
is_uncancelled none = false
is_uncancelled (some op) = not op.done && not op.cancelled

abbrev pub is_of : Bytes → Option TransferOperation → Bool
is_of l none = false
is_of l (some op) = op.lease_id == l

abbrev pub is_done : Option TransferOperation → Bool
is_done none = false
is_done (some op) = op.done

-- What holds of a Lease from the time it is stopped, `waits` being the operations that ran then.
pub record IsStopped (l : Bytes) (waits : Addresses) (m : TransferManager) : Type 0 where
  pub refused : is_blocked l m ≡ true
  pub cancelled :
      (a : ℕ) → (is_of l (lookup a m.operations) && is_uncancelled (lookup a m.operations)) ≡ false
  pub awaited :
      (a : ℕ) → (is_bound (lookup a (active_of l m)) && not (is_bound (lookup a waits))) ≡ false

admit-IsStopped :
    (l : Bytes) (waits : Addresses) (now : ℕ) (k : Bytes) (expires_at : ℕ) (m : TransferManager)
    → IsStopped l waits m
    → is_blocked k m ≡ false
    → IsStopped l waits (admit now k expires_at m)
unfolding admit begun is_blocked
admit-IsStopped l waits now k expires_at m h e =
    let other : (k == l) ≡ false = ground (arith, e, h.refused) in
    record {
      refused = h.refused;
      cancelled = λ a. ground (
        arith,
        other,
        h.cancelled a,
        lookup-insert a m.fresh (begun now k expires_at m) m.operations,
      );
      awaited = λ a. ground (arith, other, h.awaited a, active_of-admit l now k expires_at m);
    }

begin-IsStopped :
    (l : Bytes) (waits : Addresses) (now : ℕ) (k : Bytes) (expires_at : ℕ) (m : TransferManager)
    → IsStopped l waits m
    → IsStopped l waits ((begin now k expires_at m).1)
unfolding begin
begin-IsStopped l waits now k expires_at m h = elim (Bool-cases (m.closed || is_blocked k m)) [
  | inl e ↦ rw e h
  | inr e ↦ elim (Bool-cases (leb m.max_global m.global || leb m.max_per_lease (running k m))) [
    | inl f ↦ rw (e, f) h
    | inr f ↦ rw (e, f) (admit-IsStopped l waits now k expires_at m h (ground (arith, e)))
  ]
]

retire-IsStopped :
    (l : Bytes) (waits : Addresses) (a : ℕ) (op : TransferOperation) (m : TransferManager)
    → IsStopped l waits m
    → lookup a m.operations ≡ some op
    → IsStopped l waits (retire a op m)
unfolding retire is_blocked
retire-IsStopped l waits a op m h found = record {
  refused = h.refused;
  cancelled = λ b. ground (
    arith,
    h.cancelled b,
    lookup-insert b a (record op { cancelled = true; done = true }) m.operations,
  );
  awaited = λ b.
      ground
        (arith, h.awaited b, active_of-retire l a op m, lookup-erase b a (active_of op.lease_id m));
}

finish-IsStopped :
    (l : Bytes) (waits : Addresses) (a : ℕ) (m : TransferManager)
    → IsStopped l waits m
    → IsStopped l waits (finish a m)
unfolding finish retire
finish-IsStopped l waits a m h = elim (Option-cases (lookup a m.operations)) [
  | inl e ↦ rw (finish, e) h
  | inr (op, e) ↦ elim (Bool-cases op.done) [
    | inl f ↦ rw (finish, e, f) h
    | inr f ↦ rw (finish, e, f) (retire-IsStopped l waits a op m h e)
  ]
]

-- Cancelling never starts what was cancelled.
record IsLessRunning (operations others : Dict ℕ TransferOperation) : Type 0 where
  less :
      (a : ℕ) (l : Bytes)
      → (is_of l (lookup a others) && is_uncancelled (lookup a others)) ≡ true
      → (is_of l (lookup a operations) && is_uncancelled (lookup a operations)) ≡ true

cancel_all-IsLessRunning :
    (s : Addresses) (operations : Dict ℕ TransferOperation)
    → IsLessRunning operations (cancel_all s operations)
cancel_all-IsLessRunning s operations = record {
  less = λ a l e. ground (arith, e, lookup-cancel_all a s operations);
}

cancel_leases-IsLessRunning :
    (d : Dict Bytes Addresses) (operations : Dict ℕ TransferOperation)
    → IsLessRunning operations (cancel_leases d operations)
cancel_leases-IsLessRunning [] operations = record { less = λ a l e. e }
cancel_leases-IsLessRunning ((k, s) ∷ d) operations = record {
  less = λ a l e.
      (cancel_all-IsLessRunning s operations).less a l
        ((cancel_leases-IsLessRunning d (cancel_all s operations)).less a l e);
}

stop-IsStopped :
    (l : Bytes) (waits : Addresses) (k : Bytes) (m : TransferManager)
    → IsStopped l waits m
    → IsStopped l waits ((stop_lease k m).1)
unfolding stop_lease is_blocked active_of
stop-IsStopped l waits k m h = record {
  refused = ground (arith, h.refused, lookup-insert l k true m.blocked);
  cancelled = λ a.
      ground
        (arith, h.cancelled a, (cancel_all-IsLessRunning (active_of k m) m.operations).less a l);
  awaited = h.awaited;
}

close-IsStopped :
    (l : Bytes) (waits : Addresses) (m : TransferManager)
    → IsStopped l waits m
    → IsStopped l waits (close_transfers m)
unfolding close_transfers is_blocked active_of
close-IsStopped l waits m h = record {
  refused = h.refused;
  cancelled = λ a.
      ground (arith, h.cancelled a, (cancel_leases-IsLessRunning m.active m.operations).less a l);
  awaited = h.awaited;
}

perform-IsStopped :
    (l : Bytes) (waits : Addresses) (action : Action) (m : TransferManager)
    → IsStopped l waits m
    → IsStopped l waits (perform action m)
unfolding perform
perform-IsStopped l waits (begins now k expires_at) m h =
    begin-IsStopped l waits now k expires_at m h
perform-IsStopped l waits (finishes a) m h = finish-IsStopped l waits a m h
perform-IsStopped l waits (stops k) m h = stop-IsStopped l waits k m h
perform-IsStopped l waits closes m h = close-IsStopped l waits m h

run-IsStopped :
    (l : Bytes) (waits : Addresses) (actions : List Action) (m : TransferManager)
    → IsStopped l waits m
    → IsStopped l waits (run actions m)
unfolding run
run-IsStopped l waits [] m h = h
run-IsStopped l waits (action ∷ actions) m h =
    run-IsStopped l waits actions (perform action m) (perform-IsStopped l waits action m h)

stopped :
    (l : Bytes) (m : TransferManager)
    → IsCounted m
    → IsStopped l ((stop_lease l m).0) ((stop_lease l m).1)
unfolding stop_lease is_blocked active_of
stopped l m v = record {
  refused = ground (arith, lookup-insert l l true m.blocked);
  cancelled = λ a. ground (arith, v.placed a l, lookup-cancel_all a (active_of l m) m.operations);
  awaited = λ a. ground arith;
}

no-addresses : (s : Addresses) → ((a : ℕ) → is_bound (lookup a s) ≡ false) → size s ≡ 0
unfolding lookup
no-addresses [] h = refl
no-addresses ((a, u) ∷ s) h = ground (arith, h a)

-- From any state of the manager that counts its operations: once a Lease is stopped, and every operation
-- that is waited for is done after some calls, none of the Lease runs and none can begin.
pub stopped-drains :
    (l : Bytes) (m : TransferManager) (after : List Action)
    → IsCounted m
    → ((a : ℕ)
        → is_bound (lookup a (stop_lease l m).0) ≡ true
        → is_done (lookup a (run after (stop_lease l m).1).operations) ≡ true)
    → (running l (run after (stop_lease l m).1) ≡ 0)
      × (is_blocked l (run after (stop_lease l m).1) ≡ true)
unfolding perform
stopped-drains l m after v h =
    let next = run after (stop_lease l m).1 in
    let s = run-IsStopped l (stop_lease l m).0 after (stop_lease l m).1 (stopped l m v) in
    let c = run_from-IsCounted after (stop_lease l m).1 (perform-IsCounted (stops l) m v) in
    (
      c.each l
          ∙ no-addresses (active_of l next) (λ a. ground (arith, h a, s.awaited a, c.placed a l)),
      s.refused,
    )

module _ (max_global max_per_lease timeout : ℕ) (before after : List Action) (l : Bytes) where
  -- What `stopLease` returns after the calls before it: the operations it waits for, and the state.
  abbrev pub stopping : Addresses × TransferManager
  stopping = stop_lease l (run before (new_transfer_manager max_global max_per_lease timeout))

  later-IsStopped : IsStopped l stopping.0 (run after stopping.1)
  later-IsStopped =
      let m = run before (new_transfer_manager max_global max_per_lease timeout) in
      run-IsStopped l (stop_lease l m).0 after (stop_lease l m).1
        (stopped l m (run-IsCounted max_global max_per_lease timeout before))

  -- After `stopLease` and any further calls, `begin` refuses a transfer for the Lease as aborted and
  -- leaves the manager as it is.
  pub stop_lease-refuses :
      (now expires_at : ℕ)
      → begin now l expires_at (run after stopping.1) ≡ (err aborted, run after stopping.1)
  unfolding begin
  stop_lease-refuses now expires_at = ground (arith, later-IsStopped.refused)

  -- After `stopLease` and any further calls, when every operation that it waits for is done, no
  -- transfer of the Lease runs.
  pub stop_lease-drains :
      ((a : ℕ)
        → is_bound (lookup a stopping.0) ≡ true
        → is_done (lookup a (run after stopping.1).operations) ≡ true)
      → running l (run after stopping.1) ≡ 0
  stop_lease-drains h =
      let m = run before (new_transfer_manager max_global max_per_lease timeout) in
      let v = run-IsCounted max_global max_per_lease timeout before in
      (stopped-drains l m after v h).0
