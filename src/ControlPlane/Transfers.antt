-- ===== src/ControlPlane/Transfers.antt =====
-- apps/control-plane-go/internal/backend/kubernetes/transfer.go, `transferManager` and
-- `transferOperation`: how many file transfers run, for each Lease and in all, and how they are
-- stopped. An operation is named by its address, a number; `operations` holds what the addresses
-- point to. Every method is one section under the mutex.
pub mod Laws
pub mod Counting
pub mod Draining
use agent_sandbox_platform.Base.{
  ℕ, suc, ◌+◌, ◌-◌, ◌≡◌, Bool, true, false, ◌||◌, Option, none, some, List, [], ◌∷◌, Bytes, leb,
  ltb, ◌==◌, if◌then◌else◌, arith, nat_eq, bytes_eq,
}
use agent_sandbox_platform.Base.Dict.{Dict, lookup, insert, erase}
use agent_sandbox_platform.Base.Dict.Weight.{weigh}
use agent_sandbox_platform.Base.Result.{Result, err, ok}
use agent_sandbox_platform.ControlPlane.Lease.{Error, typed, aborted}

pub record TransferOperation : Type 0 where
  pub lease_id : Bytes
  pub deadline : ℕ
  pub cancelled : Bool
  pub done : Bool

-- `struct{}`, the value of a map that is a set.
abbrev pub Present : Type 0
Present = Unit

-- The addresses of the operations of one Lease.
abbrev pub Addresses : Type 0
Addresses = Dict ℕ Present

pub record TransferManager : Type 0 where
  pub closed : Bool
  pub blocked : Dict Bytes Bool
  pub active : Dict Bytes Addresses
  pub global : ℕ
  pub per_lease : Dict Bytes ℕ
  pub max_global : ℕ
  pub max_per_lease : ℕ
  pub timeout : ℕ
  pub operations : Dict ℕ TransferOperation
  pub fresh : ℕ

unfoldable pub new_transfer_manager : ℕ → ℕ → ℕ → TransferManager
new_transfer_manager max_global max_per_lease timeout = record {
  closed = false;
  blocked = [];
  active = [];
  global = 0;
  per_lease = [];
  max_global = max_global;
  max_per_lease = max_per_lease;
  timeout = timeout;
  operations = [];
  fresh = 0;
}

-- A missing key of a Go map reads as the zero value.
abbrev pub addresses_or_none : Option Addresses → Addresses
addresses_or_none none = []
addresses_or_none (some addresses) = addresses

abbrev pub count_or_zero : Option ℕ → ℕ
count_or_zero none = 0
count_or_zero (some n) = n

abbrev pub flag_or_false : Option Bool → Bool
flag_or_false none = false
flag_or_false (some flag) = flag

unfoldable pub active_of : Bytes → TransferManager → Addresses
active_of lease_id m = addresses_or_none (lookup lease_id m.active)

unfoldable pub running : Bytes → TransferManager → ℕ
running lease_id m = count_or_zero (lookup lease_id m.per_lease)

unfoldable pub is_blocked : Bytes → TransferManager → Bool
is_blocked lease_id m = flag_or_false (lookup lease_id m.blocked)

abbrev pub limit_reached : Error
limit_reached = typed 429 "TRANSFER_LIMIT_REACHED" "File transfer concurrency limit reached"

-- The operation that `begin` makes, with the deadline of its context.
unfoldable pub begun : ℕ → Bytes → ℕ → TransferManager → TransferOperation
begun now lease_id expires_at m =
    let timed = now + m.timeout in
    record {
      lease_id = lease_id;
      deadline = if ltb expires_at timed then expires_at else timed;
      cancelled = false;
      done = false;
    }

-- The part of `begin` after its guards.
unfoldable pub admit : ℕ → Bytes → ℕ → TransferManager → TransferManager
admit now lease_id expires_at m = record m {
  active = insert lease_id (insert m.fresh tt (active_of lease_id m)) m.active;
  global = m.global + 1;
  per_lease = insert lease_id (running lease_id m + 1) m.per_lease;
  operations = insert m.fresh (begun now lease_id expires_at m) m.operations;
  fresh = m.fresh + 1;
}

unfoldable pub begin : ℕ → Bytes → ℕ → TransferManager → Result Error ℕ × TransferManager
begin now lease_id expires_at m =
    if m.closed || is_blocked lease_id m
    then (err aborted, m)
    else if leb m.max_global m.global || leb m.max_per_lease (running lease_id m)
    then (err limit_reached, m)
    else (ok m.fresh, admit now lease_id expires_at m)

abbrev pub keep_nonempty : Bytes → Addresses → Dict Bytes Addresses → Dict Bytes Addresses
keep_nonempty lease_id [] d = erase lease_id d
keep_nonempty lease_id (entry ∷ rest) d = insert lease_id (entry ∷ rest) d

unfoldable pub retire : ℕ → TransferOperation → TransferManager → TransferManager
retire address op m =
    let left = running op.lease_id m - 1 in
    record m {
      active = keep_nonempty op.lease_id (erase address (active_of op.lease_id m)) m.active;
      global = m.global - 1;
      per_lease =
          if left == 0 then erase op.lease_id m.per_lease else insert op.lease_id left m.per_lease;
      operations = insert address (record op { cancelled = true; done = true }) m.operations;
    }

-- `finish`, whose body runs once for each operation.
unfoldable pub finish : ℕ → TransferManager → TransferManager
finish address m = elim (lookup address m.operations) [
  | none ↦ m
  | some op ↦ if op.done then m else retire address op m
]

-- `op.cancel()` for an operation that was found at its address.
abbrev pub cancel_found :
    ℕ → Option TransferOperation → Dict ℕ TransferOperation → Dict ℕ TransferOperation
cancel_found address none operations = operations
cancel_found address (some op) operations =
    insert address (record op { cancelled = true }) operations

-- `op.cancel()` for the operations at some addresses.
unfoldable pub cancel_all : Addresses → Dict ℕ TransferOperation → Dict ℕ TransferOperation
cancel_all [] operations = operations
cancel_all ((address, _) ∷ rest) operations =
    let others = cancel_all rest operations in cancel_found address (lookup address others) others

-- `stopLease` up to its wait: the operations that it waits for, and the state.
unfoldable pub stop_lease : Bytes → TransferManager → Addresses × TransferManager
stop_lease lease_id m = (
  active_of lease_id m,
  record m {
    blocked = insert lease_id true m.blocked;
    operations = cancel_all (active_of lease_id m) m.operations;
  },
)

abbrev pub cancel_leases :
    Dict Bytes Addresses → Dict ℕ TransferOperation → Dict ℕ TransferOperation
cancel_leases [] operations = operations
cancel_leases ((_, addresses) ∷ rest) operations =
    cancel_leases rest (cancel_all addresses operations)

-- `close` up to its wait.
unfoldable pub close_transfers : TransferManager → TransferManager
close_transfers m = record m { closed = true; operations = cancel_leases m.active m.operations }

pub data Action : Type 0 where
  begins : ℕ → Bytes → ℕ → Action
  finishes : ℕ → Action
  stops : Bytes → Action
  closes : Action

-- One call of a method, by any goroutine.
unfoldable pub perform : Action → TransferManager → TransferManager
perform (begins now lease_id expires_at) m = (begin now lease_id expires_at m).1
perform (finishes address) m = finish address m
perform (stops lease_id) m = (stop_lease lease_id m).1
perform closes m = close_transfers m

unfoldable pub run : List Action → TransferManager → TransferManager
unfolding perform
run [] m = m
run (action ∷ actions) m = run actions (perform action m)
