-- ===== src/ControlPlane/Claims.antt =====
-- apps/control-plane-go/internal/backend/kubernetes/backend.go: the SandboxClaim that stands for a
-- Lease, and how the backend finds and deletes it.
pub mod Store
pub mod Labels
use agent_sandbox_platform.Base.{
  ℕ, ◌+◌, ◌*◌, Bool, true, false, not, ◌||◌, Option, none, some, List, [], ◌∷◌, ◌++◌, Bytes, ◌==◌,
  bytes_eq, ltb, if◌then◌else◌, nat_eq,
}
use agent_sandbox_platform.Base.Dict.{Dict, lookup}
use agent_sandbox_platform.Base.Int.{ℤ}
use agent_sandbox_platform.Base.Result.{Result, ok, err}
use agent_sandbox_platform.Base.Text.{bytes}
use agent_sandbox_platform.ControlPlane.Lease.{
  Scope, Record, active, Error, typed, other, not_found, aborted,
}
use agent_sandbox_platform.ControlPlane.Cursors.{
  scope_hash, consumer_hash, idempotency_hash, pool_hash,
}
use agent_sandbox_platform.ControlPlane.Cluster.{
  Claim, ApiError, absent, Environment, Node, Operation, after_call, ◌>>=◌, api_failure, label,
  annotation,
}
use agent_sandbox_platform.ControlPlane.Transfers.{
  Addresses, TransferManager, TransferOperation, run, stop_lease,
}

abbrev pub managed_label : Bytes
managed_label = bytes "sandbox.geminixiang.dev/managed"

abbrev pub scope_label : Bytes
scope_label = bytes "sandbox.geminixiang.dev/scope"

abbrev pub consumer_label : Bytes
consumer_label = bytes "sandbox.geminixiang.dev/consumer"

abbrev pub idempotency_label : Bytes
idempotency_label = bytes "sandbox.geminixiang.dev/idempotency"

abbrev pub pool_hash_label : Bytes
pool_hash_label = bytes "sandbox.geminixiang.dev/pool"

abbrev pub pool_annotation : Bytes
pool_annotation = bytes "sandbox.geminixiang.dev/pool-name"

abbrev pub created_annotation : Bytes
created_annotation = bytes "sandbox.geminixiang.dev/created-at"

abbrev pub expires_annotation : Bytes
expires_annotation = bytes "sandbox.geminixiang.dev/expires-at"

pub record Pool : Type 0 where
  pub warm_pool_name : Bytes
  pub runtime_class_name : Bytes
  pub container_name : Bytes

-- The fields of `Backend` that are no clients: the clients and the clock are the environment, the
-- transfers are part of a node, and the timeouts are in the environment's `polls`.
pub record Backend : Type 0 where
  pub secret : Bytes
  pub pools : Dict Bytes Pool
  pub default_ttl : ℤ
  pub max_ttl : ℤ

-- Whether every operation that is waited for is done.
unfoldable pub all_done : Addresses → Dict ℕ TransferOperation → Bool
all_done [] operations = true
all_done ((address, _) ∷ rest) operations =
    let others = all_done rest operations in
    elim (lookup address operations) [ none ↦ false | some op ↦ if op.done then others else false ]

module _ {World : Type 0} (env : Environment World) (b : Backend) where
  -- `buildClaim`
  unfoldable pub build_claim : Record → Scope → Bytes → Pool → Claim
  build_claim lease scope key pool = record {
    name = lease.id;
    deleting = false;
    labels =
        (managed_label, bytes "true")
        ∷ (scope_label, scope_hash env.packages b.secret scope)
        ∷ (consumer_label, consumer_hash env.packages b.secret scope)
        ∷ (idempotency_label, idempotency_hash env.packages b.secret scope key)
        ∷ (pool_hash_label, pool_hash env.packages b.secret lease.pool)
        ∷ [];
    annotations =
        (pool_annotation, lease.pool)
        ∷ (created_annotation, env.format_time lease.created_at)
        ∷ (expires_annotation, env.format_time lease.expires_at)
        ∷ [];
    sandbox_name = [];
    warm_pool_name = pool.warm_pool_name;
    shutdown_time = env.format_time lease.expires_at;
  }

  -- `recordFromClaim`
  unfoldable pub record_from_claim : Claim → Result Error Record
  record_from_claim claim = elim (env.parse_time (annotation created_annotation claim)) [
    | none ↦ err (other "invalid claim created-at")
    | some created ↦ elim (env.parse_time (annotation expires_annotation claim)) [
      | none ↦ err (other "invalid claim expires-at")
      | some expires ↦ ok (record {
        id = claim.name;
        pool = annotation pool_annotation claim;
        status = active;
        created_at = created;
        expires_at = expires;
        last_used_at = created;
      })
    ]
  ]

  -- The claims that `requireClaim` gives to a scope.
  unfoldable pub belongs : Scope → Claim → Bool
  belongs scope claim = not (
      claim.deleting
      || not (label managed_label claim == bytes "true")
      || not (label scope_label claim == scope_hash env.packages b.secret scope))

  unfoldable pub found_claim : Scope → Result ApiError Claim → Result Error Claim
  found_claim scope (err absent) = err not_found
  found_claim scope (err ApiError.expired) = err (api_failure ApiError.expired)
  found_claim scope (err (ApiError.failed message)) = err (api_failure (ApiError.failed message))
  found_claim scope (ok claim) = if belongs scope claim then ok claim else err not_found

  -- `requireClaim`
  unfoldable pub require_claim : Scope → Bytes → Operation World Claim
  require_claim scope id node = (found_claim scope (env.get_claim node.world id), node)

  abbrev pub forgiving : Result ApiError (Unit {0}) → Result Error (Unit {0})
  forgiving (err absent) = ok tt
  forgiving (err ApiError.expired) = err (api_failure ApiError.expired)
  forgiving (err (ApiError.failed message)) = err (api_failure (ApiError.failed message))
  forgiving (ok u) = ok tt

  -- `deleteClaim`
  unfoldable pub delete_claim : Bytes → Operation World (Unit {0})
  delete_claim name node =
      let removed = env.remove_claim name node.world in
      (forgiving removed.0, record node { world = removed.1 })

  -- `waitTransfers`: the calls of other goroutines come first, and an operation that is not done when
  -- they are over is not done before the context is.
  unfoldable pub wait_transfers : Addresses → Operation World (Unit {0})
  wait_transfers waits node =
      let others = env.waiting node.world in
      let transfers = run others.0 node.transfers in
      (
        if all_done waits transfers.operations then ok tt else err aborted,
        record { world = others.1; transfers = transfers },
      )

  -- `transfers.stopLease`
  unfoldable pub stop_transfers : Bytes → Operation World (Unit {0})
  stop_transfers id node =
      let stopped = stop_lease id node.transfers in
      wait_transfers stopped.0 (record node { transfers = stopped.1 })

  -- `stopLeaseAndDelete`
  unfoldable pub stop_lease_and_delete : Bytes → Operation World (Unit {0})
  stop_lease_and_delete id = stop_transfers id >>= λ u. delete_claim id
