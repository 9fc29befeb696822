-- ===== src/ControlPlane/Transfers/Laws.antt =====
-- apps/control-plane-go/internal/backend/kubernetes/transfer.go: what one step of the transfer manager
-- changes, Lease by Lease and address by address.
use agent_sandbox_platform.Base.{
  ℕ, ◌+◌, ◌-◌, ◌≡◌, Bool, true, false, Option, none, some, [], ◌∷◌, Bytes, ◌==◌, if◌then◌else◌,
  arith, nat_eq, bytes_eq, Option-cases, inl, inr,
}
use agent_sandbox_platform.Base.Dict.{Dict, lookup, insert, erase, lookup-erase, lookup-insert}
use agent_sandbox_platform.ControlPlane.Transfers.{
  Present, Addresses, TransferManager, TransferOperation, active_of, running, admit, retire,
  keep_nonempty, addresses_or_none, cancel_all, cancel_found,
}

-- What is active for a Lease after an address was put there or removed.
pub lookup-keep_nonempty :
    (j l : Bytes) (s : Addresses) (d : Dict Bytes Addresses)
    → addresses_or_none (lookup j (keep_nonempty l s d))
      ≡ (if j == l then s else addresses_or_none (lookup j d))
lookup-keep_nonempty j l [] d = ground (arith, lookup-erase j l d)
lookup-keep_nonempty j l (entry ∷ s) d = ground (arith, lookup-insert j l (entry ∷ s) d)

pub active_of-admit :
    (j : Bytes) (now : ℕ) (lease_id : Bytes) (expires_at : ℕ) (m : TransferManager)
    → active_of j (admit now lease_id expires_at m)
      ≡ (if j == lease_id then insert m.fresh tt (active_of lease_id m) else active_of j m)
unfolding active_of admit
active_of-admit j now lease_id expires_at m =
    ground (arith, lookup-insert j lease_id (insert m.fresh tt (active_of lease_id m)) m.active)

pub active_of-retire :
    (j : Bytes) (address : ℕ) (op : TransferOperation) (m : TransferManager)
    → active_of j (retire address op m)
      ≡ (if j == op.lease_id then erase address (active_of op.lease_id m) else active_of j m)
unfolding active_of retire
active_of-retire j address op m =
    lookup-keep_nonempty j op.lease_id (erase address (active_of op.lease_id m)) m.active

pub running-admit :
    (j : Bytes) (now : ℕ) (lease_id : Bytes) (expires_at : ℕ) (m : TransferManager)
    → running j (admit now lease_id expires_at m)
      ≡ (if j == lease_id then running lease_id m + 1 else running j m)
unfolding running admit
running-admit j now lease_id expires_at m =
    ground (arith, lookup-insert j lease_id (running lease_id m + 1) m.per_lease)

pub running-retire :
    (j : Bytes) (address : ℕ) (op : TransferOperation) (m : TransferManager)
    → running j (retire address op m)
      ≡ (if j == op.lease_id then running op.lease_id m - 1 else running j m)
unfolding running retire
running-retire j address op m = ground (
  arith,
  lookup-erase j op.lease_id m.per_lease,
  lookup-insert j op.lease_id (running op.lease_id m - 1) m.per_lease,
)

-- An operation, if there is one, with its context cancelled.
abbrev pub cancelled_if_any : Option TransferOperation → Option TransferOperation
cancelled_if_any none = none
cancelled_if_any (some op) = some (record op { cancelled = true })

pub lookup-cancel_found :
    (a b : ℕ) (operations : Dict ℕ TransferOperation)
    → lookup a (cancel_found b (lookup b operations) operations)
      ≡ (if a == b then cancelled_if_any (lookup a operations) else lookup a operations)
lookup-cancel_found a b operations = elim (Option-cases (lookup b operations)) [
  | inl e ↦ rw e (ground (arith, e))
  | inr (op, e) ↦
      rw (e, lookup-insert a b (record op { cancelled = true }) operations) (ground (arith, e))
]

abbrev pub is_bound : Option Present → Bool
is_bound none = false
is_bound (some u) = true

pub lookup-cancel_all :
    (a : ℕ) (s : Addresses) (operations : Dict ℕ TransferOperation)
    → lookup a (cancel_all s operations) ≡ (
        if is_bound (lookup a s)
        then cancelled_if_any (lookup a operations)
        else lookup a operations)
unfolding cancel_all lookup
lookup-cancel_all a [] operations = ground arith
lookup-cancel_all a ((b, u) ∷ s) operations =
    rw (lookup-cancel_found a b (cancel_all s operations), lookup-cancel_all a s operations)
      (ground arith)
