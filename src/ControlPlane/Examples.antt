-- ===== src/ControlPlane/Examples.antt =====
-- apps/control-plane-go: the theorems at concrete paths, outputs and sequences of calls.
mod Sealed
mod Server
mod Backend
mod Listing
mod Streams
use agent_sandbox_platform.Base.{
  ℕ, ◌≡◌, refl, true, List, [], ◌∷◌, Bytes, take, length, All, ◌++◌, some, false, ltb, nat_eq,
  arith, bytes_eq,
}
use agent_sandbox_platform.Base.Result.{ok, err}
use agent_sandbox_platform.Base.Dict.{lookup, insert, erase}
use agent_sandbox_platform.Base.Text.{bytes, split, cons_first, join, has_prefix, trim_space}
use agent_sandbox_platform.Codec.PosixPath.{clean, absolute, resolve, climb, advance, relative}
use agent_sandbox_platform.Codec.PosixPath.Laws.{IsPlain}
use agent_sandbox_platform.ControlPlane.Commands.{normalize_workspace_path, shell_quote}
use agent_sandbox_platform.ControlPlane.Commands.Paths.{normalize-in_workspace}
use agent_sandbox_platform.ControlPlane.Commands.Quoting.{read_word, read_word-quoted}
use agent_sandbox_platform.ControlPlane.Lease.{aborted}
use agent_sandbox_platform.ControlPlane.Buffers.{write_all, empty, concat, write_all-cut}
use agent_sandbox_platform.ControlPlane.Transfers.{
  Action, begins, finishes, run, new_transfer_manager, begin, running, finish, perform, admit,
  begun, retire, stop_lease, cancel_all, active_of, is_blocked,
}
use agent_sandbox_platform.ControlPlane.Transfers.Counting.{IsCounted, run-IsCounted}
use agent_sandbox_platform.ControlPlane.Transfers.Laws.{is_bound}
use agent_sandbox_platform.ControlPlane.Transfers.Draining.{
  stopping, stop_lease-refuses, stop_lease-drains, is_done,
}

abbrev chunks : List Bytes
chunks = bytes "sand" ∷ bytes "box" ∷ []

write_all-cut_example :
    (write_all chunks (empty 5)).value ≡ take 5 (concat chunks)
    × (write_all chunks (empty 5)).exceeded ≡ ltb 5 (length (concat chunks))
write_all-cut_example = write_all-cut 5 chunks

inside :
    normalize_workspace_path (bytes "src/../src//main.go") ≡ ok (bytes "/workspace/src/main.go")
unfolding normalize_workspace_path clean absolute resolve climb advance relative split cons_first
    join has_prefix trim_space bytes_eq
inside = refl

normalize-in_workspace_example :
    (below : List Bytes) × (bytes "/workspace/src/main.go" ≡ absolute (bytes "workspace" ∷ below))
    × All IsPlain below
    × (clean (bytes "/workspace/src/main.go") ≡ bytes "/workspace/src/main.go")
normalize-in_workspace_example =
    normalize-in_workspace (bytes "src/../src//main.go") (bytes "/workspace/src/main.go") inside

read_word-quoted_example :
    read_word (shell_quote (bytes "it's") ++ bytes " && true")
    ≡ some (bytes "it's", bytes " && true")
read_word-quoted_example = read_word-quoted (bytes "it's") (bytes " && true") refl

abbrev lease_a : Bytes
lease_a = bytes "lease-a"

abbrev busy : List Action
busy = begins 10 lease_a 900 ∷ begins 11 lease_a 900 ∷ begins 12 (bytes "lease-b") 900 ∷ []

abbrev finishing : List Action
finishing = finishes 1 ∷ finishes 0 ∷ begins 20 lease_a 900 ∷ []

run-IsCounted_example : IsCounted (run busy (new_transfer_manager 8 2 120))
run-IsCounted_example = run-IsCounted 8 2 120 busy

stop_lease-refuses_example :
    begin 30 lease_a 900 (run finishing (stopping 8 2 120 busy finishing lease_a).1)
    ≡ (err aborted, run finishing (stopping 8 2 120 busy finishing lease_a).1)
stop_lease-refuses_example = stop_lease-refuses 8 2 120 busy finishing lease_a 30 900

all_done :
    (a : ℕ)
    → is_bound (lookup a (stopping 8 2 120 busy finishing lease_a).0) ≡ true
    → is_done (lookup a (run finishing (stopping 8 2 120 busy finishing lease_a).1).operations)
      ≡ true
unfolding run perform new_transfer_manager begin admit begun finish retire stop_lease cancel_all
    active_of is_blocked running lookup insert erase bytes_eq
all_done a h = ground (arith, h)

stop_lease-drains_example :
    running lease_a (run finishing (stopping 8 2 120 busy finishing lease_a).1) ≡ 0
stop_lease-drains_example = stop_lease-drains 8 2 120 busy finishing lease_a all_done
