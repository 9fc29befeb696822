-- ===== src/ControlPlane/Options.antt =====
-- apps/control-plane-go/internal/backend/kubernetes/backend.go: `New`, which makes a backend of its
-- options.
pub mod Limits
use agent_sandbox_platform.Base.{
  ℕ, ◌*◌, Bool, true, false, not, ◌||◌, List, [], ◌∷◌, Bytes, ◌==◌, bytes_eq, if◌then◌else◌,
}
use agent_sandbox_platform.Base.Dict.{Dict, insert}
use agent_sandbox_platform.Base.Int.{ℤ, pos, leb_ℤ, ltb_ℤ, magnitude}
use agent_sandbox_platform.Base.Result.{Result, ok, err}
use agent_sandbox_platform.Base.Text.{trim_space}
use agent_sandbox_platform.ControlPlane.Cursors.{eqb_ℤ}
use agent_sandbox_platform.ControlPlane.Lease.{Error, typed, other}
use agent_sandbox_platform.ControlPlane.Claims.{Backend, Pool}
use agent_sandbox_platform.ControlPlane.Transfers.{TransferManager, new_transfer_manager}

-- `has_clients` says that none of the clients is nil; durations are nanoseconds.
pub record Options : Type 0 where
  pub namespace : Bytes
  pub metadata_secret : Bytes
  pub pools : Dict Bytes Pool
  pub default_ttl_seconds : ℤ
  pub max_ttl_seconds : ℤ
  pub has_clients : Bool
  pub max_transfers : ℤ
  pub max_transfers_per_lease : ℤ
  pub transfer_timeout : ℤ

abbrev pub default_global_transfers : ℤ
default_global_transfers = pos 8

abbrev pub default_per_lease_transfers : ℤ
default_per_lease_transfers = pos 2

abbrev pub default_transfer_timeout : ℤ
default_transfer_timeout = pos (120 * 1000000000)

-- A default in place of zero.
unfoldable pub nonzero_or : ℤ → ℤ → ℤ
nonzero_or default value = if eqb_ℤ value (pos 0) then default else value

abbrev pub is_blank : Bytes → Bool
is_blank text = trim_space text == []

-- The loop of `validatePools`.
unfoldable pub checked_pools : Dict Bytes Pool → Dict Bytes Pool → Result Error (Dict Bytes Pool)
checked_pools [] result = ok result
checked_pools ((name, pool) ∷ pools) result =
    let rest = checked_pools pools (insert name pool result) in
    if is_blank name || is_blank pool.warm_pool_name || is_blank pool.runtime_class_name
    then err (other "pool requires warmPoolName and runtimeClassName")
    else rest

-- `validatePools`
unfoldable pub validate_pools : Dict Bytes Pool → Result Error (Dict Bytes Pool)
validate_pools [] = err (other "at least one pool is required")
validate_pools (entry ∷ pools) = checked_pools (entry ∷ pools) []

-- `newMetadataIdentity`
unfoldable pub new_metadata_identity : Bytes → Result Error Bytes
new_metadata_identity secret =
    if secret == []
    then err (typed 500 "INVALID_CONFIGURATION" "metadata secret is required")
    else ok secret

-- The limits of the transfers with their defaults.
pub record TransferLimits : Type 0 where
  pub most : ℤ
  pub most_per_lease : ℤ
  pub longest : ℤ

unfoldable pub limits_of : Options → TransferLimits
limits_of options = record {
  most = nonzero_or default_global_transfers options.max_transfers;
  most_per_lease = nonzero_or default_per_lease_transfers options.max_transfers_per_lease;
  longest = nonzero_or default_transfer_timeout options.transfer_timeout;
}

unfoldable pub check_limits : TransferLimits → Result Error (Unit {0})
check_limits limits =
    if ltb_ℤ limits.most (pos 1)
      || ltb_ℤ limits.most_per_lease (pos 1)
      || leb_ℤ limits.longest (pos 0)
    then err (other "transfer limits and timeout must be positive")
    else if ltb_ℤ limits.most limits.most_per_lease
    then err (other "per-Lease transfer limit must not exceed global limit")
    else ok tt

-- `New` on a secret and pools that are accepted.
unfoldable pub make_backend :
    Options → Bytes → Dict Bytes Pool → Result Error (Backend × TransferManager)
make_backend options secret pools = elim (check_limits (limits_of options)) [
  | err e ↦ err e
  | ok u ↦
      if not options.has_clients
      then err (other "Kubernetes clients and command runner are required")
      else ok (
        record {
          secret = secret;
          pools = pools;
          default_ttl = nonzero_or (pos 900) options.default_ttl_seconds;
          max_ttl = nonzero_or (pos 3600) options.max_ttl_seconds;
        },
        new_transfer_manager (magnitude (limits_of options).most)
            (magnitude (limits_of options).most_per_lease) (magnitude (limits_of options).longest),
      )
]

-- `New`
unfoldable pub new_backend : Options → Result Error (Backend × TransferManager)
new_backend options =
    if is_blank options.namespace
    then err (other "namespace is required")
    else elim (new_metadata_identity options.metadata_secret) [
      | err e ↦ err e
      | ok secret ↦ elim (validate_pools options.pools) [
        | err e ↦ err e
        | ok pools ↦ make_backend options secret pools
      ]
    ]
