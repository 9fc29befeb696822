-- ===== src/ControlPlane/Transfers/Counting.antt =====
-- apps/control-plane-go/internal/backend/kubernetes/transfer.go: the counters of the transfer manager
-- agree with the operations that run.
use agent_sandbox_platform.Base.{
  ℕ, ◌+◌, ◌≡◌, ◌≤◌, Bool, true, false, not, ◌&&◌, ◌||◌, ◌∙◌, sym, refl, Option, none, some, List,
  [], ◌∷◌, Bytes, ◌==◌, leb, if◌then◌else◌, arith, nat_eq, bytes_eq, Option-cases, Bool-cases, inl,
  inr,
}
use agent_sandbox_platform.Base.Dict.{
  Dict, lookup, insert, erase, lookup-nil, lookup-erase, lookup-insert,
}
use agent_sandbox_platform.Base.Dict.Weight.{
  weigh, weight_of, IsDistinct, insert-IsDistinct, erase-IsDistinct, weigh-insert, weigh-erase,
}
use agent_sandbox_platform.ControlPlane.Transfers.{
  Present, Addresses, TransferManager, TransferOperation, active_of, running, is_blocked, admit,
  begun, retire, keep_nonempty, cancel_all, begin, finish, stop_lease, close_transfers,
  cancel_leases, Action, begins, finishes, stops, closes, perform, run, new_transfer_manager,
}
use agent_sandbox_platform.ControlPlane.Transfers.Laws.{
  active_of-admit, active_of-retire, running-admit, running-retire, lookup-cancel_all,
}

abbrev pub size : Addresses → ℕ
size s = weigh (λ u. 1) s

-- Whether what an address points to is an operation of a Lease that has not finished.
abbrev pub place : Bytes → Option TransferOperation → Option Present
place lease_id none = none
place lease_id (some op) = if op.lease_id == lease_id && not op.done then some tt else none

pub record IsCounted (m : TransferManager) : Type 0 where
  pub leases_distinct : IsDistinct m.active
  pub addresses_distinct : (l : Bytes) → IsDistinct (active_of l m)
  pub each : (l : Bytes) → running l m ≡ size (active_of l m)
  pub total : m.global ≡ weigh size m.active
  pub bounded : m.global ≤ m.max_global
  pub bounded_each : (l : Bytes) → running l m ≤ m.max_per_lease
  pub placed : (a : ℕ) (l : Bytes) → lookup a (active_of l m) ≡ place l (lookup a m.operations)
  pub unused : (a : ℕ) → leb m.fresh a ≡ true → lookup a m.operations ≡ none

weigh-keep_nonempty :
    (l : Bytes) (s : Addresses) (d : Dict Bytes Addresses)
    → IsDistinct d
    → weigh size (keep_nonempty l s d) + weight_of size (lookup l d) ≡ weigh size d + size s
weigh-keep_nonempty l [] d h = omega (arith, weigh-erase size l d h)
weigh-keep_nonempty l (entry ∷ s) d h = weigh-insert size l (entry ∷ s) d

keep_nonempty-IsDistinct :
    (l : Bytes) (s : Addresses) (d : Dict Bytes Addresses)
    → IsDistinct d
    → IsDistinct (keep_nonempty l s d)
keep_nonempty-IsDistinct l [] d h = erase-IsDistinct l d h
keep_nonempty-IsDistinct l (entry ∷ s) d h = insert-IsDistinct l (entry ∷ s) d h

size-active_of :
    (l : Bytes) (m : TransferManager) → size (active_of l m) ≡ weight_of size (lookup l m.active)
unfolding active_of
size-active_of l m = ground arith

size-admitted :
    (m : TransferManager) (l : Bytes)
    → IsCounted m
    → size (insert m.fresh tt (active_of l m)) ≡ size (active_of l m) + 1
size-admitted m l v =
    ground (
      arith,
      weigh-insert (λ u. 1) m.fresh tt (active_of l m),
      v.placed m.fresh l,
      v.unused m.fresh,
    )

admit-IsCounted :
    (now : ℕ) (lease_id : Bytes) (expires_at : ℕ) (m : TransferManager)
    → IsCounted m
    → leb m.max_global m.global ≡ false
    → leb m.max_per_lease (running lease_id m) ≡ false
    → IsCounted (admit now lease_id expires_at m)
unfolding admit begun
admit-IsCounted now lease_id expires_at m v g p =
    let next = admit now lease_id expires_at m in
    record {
      leases_distinct =
          insert-IsDistinct lease_id (insert m.fresh tt (active_of lease_id m)) m.active
            v.leases_distinct;
      addresses_distinct = λ l.
          rw (active_of-admit l now lease_id expires_at m) (elim (Bool-cases (l == lease_id)) [
            | inl e ↦ rw e (
                insert-IsDistinct m.fresh tt (active_of lease_id m) (v.addresses_distinct lease_id))
            | inr e ↦ rw e (v.addresses_distinct l)
          ]);
      each = λ l.
          rw
            (running-admit l now lease_id expires_at m, active_of-admit l now lease_id expires_at m)
            (ground (arith, v.each l, v.each lease_id, size-admitted m lease_id v));
      total = ground (
        arith,
        v.total,
        weigh-insert size lease_id (insert m.fresh tt (active_of lease_id m)) m.active,
        size-active_of lease_id m,
        size-admitted m lease_id v,
      );
      bounded = ground (arith, v.bounded, g);
      bounded_each =
          λ l. ground (arith, v.bounded_each l, p, running-admit l now lease_id expires_at m);
      placed = λ a l.
          rw
            (
              active_of-admit l now lease_id expires_at m,
              lookup-insert a m.fresh (begun now lease_id expires_at m) m.operations,
            )
            (ground (
              arith,
              lookup-insert a m.fresh tt (active_of lease_id m),
              v.placed a l,
              v.placed a lease_id,
              v.unused a,
            ));
      unused = λ a h. ground (
        arith,
        v.unused a,
        lookup-insert a m.fresh (begun now lease_id expires_at m) m.operations,
      );
    }

size-retired :
    (a : ℕ) (op : TransferOperation) (m : TransferManager)
    → IsCounted m
    → lookup a m.operations ≡ some op
    → op.done ≡ false
    → size (erase a (active_of op.lease_id m)) + 1 ≡ size (active_of op.lease_id m)
size-retired a op m v found undone = ground (
  arith,
  weigh-erase (λ u. 1) a (active_of op.lease_id m) (v.addresses_distinct op.lease_id),
  v.placed a op.lease_id,
  found,
  undone,
)

retire-IsCounted :
    (a : ℕ) (op : TransferOperation) (m : TransferManager)
    → IsCounted m
    → lookup a m.operations ≡ some op
    → op.done ≡ false
    → IsCounted (retire a op m)
unfolding retire
retire-IsCounted a op m v found undone =
    let left : size (erase a (active_of op.lease_id m)) + 1 ≡ size (active_of op.lease_id m) =
      size-retired a op m v found undone in
    record {
      leases_distinct =
          keep_nonempty-IsDistinct op.lease_id (erase a (active_of op.lease_id m)) m.active
            v.leases_distinct;
      addresses_distinct = λ l.
          rw (active_of-retire l a op m) (elim (Bool-cases (l == op.lease_id)) [
            | inl e ↦
                rw e
                  (erase-IsDistinct a (active_of op.lease_id m) (v.addresses_distinct op.lease_id))
            | inr e ↦ rw e (v.addresses_distinct l)
          ]);
      each = λ l.
          rw (running-retire l a op m, active_of-retire l a op m)
            (ground (arith, v.each l, v.each op.lease_id, left));
      total = ground (
        arith,
        v.total,
        weigh-keep_nonempty op.lease_id (erase a (active_of op.lease_id m)) m.active
            v.leases_distinct,
        size-active_of op.lease_id m,
        left,
      );
      bounded = omega (arith, v.bounded);
      bounded_each = λ l.
          ground (arith, v.bounded_each l, v.bounded_each op.lease_id, running-retire l a op m);
      placed = λ b l.
          rw
            (
              active_of-retire l a op m,
              lookup-insert b a (record op { cancelled = true; done = true }) m.operations,
            )
            (ground (
              arith,
              lookup-erase b a (active_of op.lease_id m),
              v.placed b l,
              v.placed b op.lease_id,
              found,
            ));
      unused = λ b h. ground (
        arith,
        v.unused b,
        found,
        lookup-insert b a (record op { cancelled = true; done = true }) m.operations,
      );
    }

-- Two stores of operations that differ in cancelled contexts alone.
record IsSamePlaces (operations others : Dict ℕ TransferOperation) : Type 0 where
  same : (a : ℕ) (l : Bytes) → place l (lookup a others) ≡ place l (lookup a operations)
  absent : (a : ℕ) → lookup a operations ≡ none → lookup a others ≡ none

cancel_all-IsSamePlaces :
    (s : Addresses) (operations : Dict ℕ TransferOperation)
    → IsSamePlaces operations (cancel_all s operations)
cancel_all-IsSamePlaces s operations = record {
  same = λ a l. ground (arith, lookup-cancel_all a s operations);
  absent = λ a h. ground (arith, h, lookup-cancel_all a s operations);
}

cancel_leases-IsSamePlaces :
    (d : Dict Bytes Addresses) (operations : Dict ℕ TransferOperation)
    → IsSamePlaces operations (cancel_leases d operations)
cancel_leases-IsSamePlaces [] operations = record { same = λ a l. refl; absent = λ a h. h }
cancel_leases-IsSamePlaces ((k, s) ∷ d) operations =
    let first = cancel_all-IsSamePlaces s operations in
    let rest = cancel_leases-IsSamePlaces d (cancel_all s operations) in
    record {
      same = λ a l. rest.same a l ∙ first.same a l;
      absent = λ a h. rest.absent a (first.absent a h);
    }

with_cancelled :
    (m : TransferManager) (closed : Bool) (blocked : Dict Bytes Bool)
    (others : Dict ℕ TransferOperation)
    → IsCounted m
    → IsSamePlaces m.operations others
    → IsCounted (record m { closed = closed; blocked = blocked; operations = others })
unfolding active_of running
with_cancelled m closed blocked others v h = record {
  leases_distinct = v.leases_distinct;
  addresses_distinct = v.addresses_distinct;
  each = v.each;
  total = v.total;
  bounded = v.bounded;
  bounded_each = v.bounded_each;
  placed = λ a l. v.placed a l ∙ sym (h.same a l);
  unused = λ a e. h.absent a (v.unused a e);
}

begin-IsCounted :
    (now : ℕ) (l : Bytes) (expires_at : ℕ) (m : TransferManager)
    → IsCounted m
    → IsCounted ((begin now l expires_at m).1)
unfolding begin
begin-IsCounted now l expires_at m v = elim (Bool-cases (m.closed || is_blocked l m)) [
  | inl e ↦ rw (begin, e) v
  | inr e ↦ elim (Bool-cases (leb m.max_global m.global || leb m.max_per_lease (running l m))) [
    | inl f ↦ rw (begin, e, f) v
    | inr f ↦
        rw (begin, e, f)
          (admit-IsCounted now l expires_at m v (ground (arith, f)) (ground (arith, f)))
  ]
]

finish-IsCounted : (a : ℕ) (m : TransferManager) → IsCounted m → IsCounted (finish a m)
unfolding finish retire
finish-IsCounted a m v = elim (Option-cases (lookup a m.operations)) [
  | inl e ↦ rw (finish, e) v
  | inr (op, e) ↦ elim (Bool-cases op.done) [
    | inl f ↦ rw (finish, e, f) v
    | inr f ↦ rw (finish, e, f) (retire-IsCounted a op m v e f)
  ]
]

pub perform-IsCounted :
    (action : Action) (m : TransferManager) → IsCounted m → IsCounted (perform action m)
unfolding perform stop_lease close_transfers
perform-IsCounted (begins now l expires_at) m v = begin-IsCounted now l expires_at m v
perform-IsCounted (finishes a) m v = finish-IsCounted a m v
perform-IsCounted (stops l) m v =
    with_cancelled m m.closed (insert l true m.blocked) (cancel_all (active_of l m) m.operations) v
      (cancel_all-IsSamePlaces (active_of l m) m.operations)
perform-IsCounted closes m v =
    with_cancelled m true m.blocked (cancel_leases m.active m.operations) v
      (cancel_leases-IsSamePlaces m.active m.operations)

new-IsCounted : (g p t : ℕ) → IsCounted (new_transfer_manager g p t)
unfolding new_transfer_manager active_of running
new-IsCounted g p t = record {
  leases_distinct = tt;
  addresses_distinct = λ l. rw (lookup-nil {V = Addresses} l) tt;
  each = λ l. ground (arith, lookup-nil {V = Addresses} l, lookup-nil {V = ℕ} l);
  total = refl;
  bounded = omega arith;
  bounded_each = λ l. ground (arith, lookup-nil {V = ℕ} l);
  placed = λ a l. ground (
    arith,
    lookup-nil {V = Addresses} l,
    lookup-nil {V = Present} a,
    lookup-nil {V = TransferOperation} a,
  );
  unused = λ a h. lookup-nil a;
}

pub run_from-IsCounted :
    (actions : List Action) (m : TransferManager) → IsCounted m → IsCounted (run actions m)
unfolding run
run_from-IsCounted [] m v = v
run_from-IsCounted (action ∷ actions) m v =
    run_from-IsCounted actions (perform action m) (perform-IsCounted action m v)

-- After any sequence of calls of a new transfer manager, the counters of all transfers and of each
-- Lease are the numbers of operations that have begun and not finished, and are within the limits.
pub run-IsCounted :
    (max_global max_per_lease timeout : ℕ) (actions : List Action)
    → IsCounted (run actions (new_transfer_manager max_global max_per_lease timeout))
run-IsCounted g p t actions =
    run_from-IsCounted actions (new_transfer_manager g p t) (new-IsCounted g p t)
