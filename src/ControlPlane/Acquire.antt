-- ===== src/ControlPlane/Acquire.antt =====
-- apps/control-plane-go/internal/backend/kubernetes/backend.go: `Acquire`, which gives out a Lease, or
-- the one that an earlier request with the same idempotency key was given. A call holds `acquireMu`
-- throughout.
pub mod Replays
pub mod Cleanup
pub mod Reading
use agent_sandbox_platform.Base.{
  ℕ, zero, suc, ◌+◌, ◌*◌, Bool, true, false, not, ◌||◌, Option, none, some, List, [], ◌∷◌, ◌++◌,
  Bytes, ◌==◌, bytes_eq, ltb, leb, ◌-◌, ◌%◌, ◌^◌, ◌<◌, ◌≡◌, arith, if◌then◌else◌,
}
use native.Mathlib.Nat.{mod-eq_of_lt}
use agent_sandbox_platform.Base.Dict.{Dict, lookup}
use agent_sandbox_platform.Base.Int.{ℤ, pos, negsuc, leb_ℤ, ltb_ℤ}
use agent_sandbox_platform.Base.Result.{Result, ok, err}
use agent_sandbox_platform.Base.Text.{bytes}
use agent_sandbox_platform.Codec.Hexadecimal.{encode_hex}
use agent_sandbox_platform.ControlPlane.Lease.{
  Scope, Record, AcquireResult, active, Error, typed, other,
}
use agent_sandbox_platform.ControlPlane.Cursors.{scope_hash, idempotency_hash}
use agent_sandbox_platform.ControlPlane.Cluster.{
  Claim, ClaimList, ApiError, absent, Environment, Node, Operation, after_call, ◌>>=◌, api_failure,
  passed,
}
use agent_sandbox_platform.ControlPlane.Claims.{
  Backend, Pool, build_claim, record_from_claim, delete_claim, managed_label, scope_label,
  idempotency_label,
}

pub record AcquireRequest : Type 0 where
  pub pool : Bytes
  pub idempotency_key : Bytes
  pub ttl_seconds : Option ℤ

abbrev pub unknown_pool : Error
unknown_pool = typed 400 "UNKNOWN_POOL" "Unknown sandbox pool"

-- The message names the longest time, which is left out here.
abbrev pub invalid_lease_ttl : Error
invalid_lease_ttl =
    typed 400 "INVALID_LEASE_TTL" "ttlSeconds must be an integer between 1 and the maximum"

abbrev pub ready_timeout : Error
ready_timeout = typed 504 "SANDBOX_READY_TIMEOUT" "Sandbox did not become ready"

abbrev pub ttl_or : ℤ → Option ℤ → ℤ
ttl_or default_ttl none = default_ttl
ttl_or default_ttl (some ttl) = ttl

-- What an `int64` is that was to be a number: its low 64 bits, of which the upper half is below zero.
abbrev pub wrapped_add : ℕ → ℕ → ℕ
wrapped_add now bits = if ltb bits (2 ^ 63) then now + bits else now - (2 ^ 64 - bits)

abbrev pub wrapped_sub : ℕ → ℕ → ℕ
wrapped_sub now bits = if leb bits (2 ^ 63) then now - bits else now + (2 ^ 64 - bits)

-- `now.Add(time.Duration(ttl) * time.Second)`: the product of nanoseconds wraps around at 64 bits. A time
-- before 1970 is that instant here.
unfoldable pub add_seconds : ℕ → ℤ → ℕ
add_seconds now (pos n) = wrapped_add now ((n * 1000000000) % 2 ^ 64)
add_seconds now (negsuc n) = wrapped_sub now (((n + 1) * 1000000000) % 2 ^ 64)

-- A time to live whose nanoseconds fit an `int64` is added as it is.
pub add_seconds-fits :
    (now n : ℕ) → n * 1000000000 < 2 ^ 63 → add_seconds now (pos n) ≡ now + n * 1000000000
unfolding add_seconds
add_seconds-fits now n h =
    let below : n * 1000000000 < 2 ^ 64 = omega (arith, h) in ground (arith, h, mod-eq_of_lt below)

-- The container of a Pool, or the first of the Pod.
abbrev pub container_of : Bytes → List Bytes → Bytes
container_of [] [] = []
container_of [] (first ∷ rest) = first
container_of (c ∷ name) containers = c ∷ name

abbrev pub same_class : Option Bytes → Bytes → Bool
same_class none name = false
same_class (some class) name = class == name

module _ {World : Type 0} (env : Environment World) (b : Backend) where
  unfoldable pub idempotency_selector : Scope → Bytes → Dict Bytes Bytes
  idempotency_selector scope key =
      (managed_label, bytes "true")
      ∷ (scope_label, scope_hash env.packages b.secret scope)
      ∷ (idempotency_label, idempotency_hash env.packages b.secret scope key)
      ∷ []

  -- The loop of `findByIdempotencyKey`: an expired claim is deleted, as far as it can be.
  unfoldable pub first_usable : List Claim → Operation World (Option Record)
  first_usable [] node = (ok none, node)
  first_usable (claim ∷ claims) node =
      let skipped = first_usable claims node in
      if claim.deleting then skipped else elim (record_from_claim env b claim) [
        | err e ↦ (err e, node)
        | ok lease ↦
            let next = first_usable claims ((delete_claim env b lease.id node).1) in
            if not (ltb (env.now node.world) lease.expires_at)
            then next
            else (ok (some lease), node)
      ]

  -- `findByIdempotencyKey`
  unfoldable pub find_by_idempotency_key : Scope → Bytes → Operation World (Option Record)
  find_by_idempotency_key scope key node =
      after_call (passed (env.list_claims node.world (idempotency_selector scope key) 0 []), node)
        (λ list. first_usable list.items)

  -- What a poll of a claim comes to: nothing yet, or a result.
  unfoldable pub polled : Result ApiError Claim → Option (Result Error Claim)
  polled (ok claim) = if claim.sandbox_name == [] then none else some (ok claim)
  polled (err absent) = none
  polled (err ApiError.expired) = some (err (api_failure ApiError.expired))
  polled (err (ApiError.failed message)) = some (err (api_failure (ApiError.failed message)))

  -- `waitForReadyClaim`, by the polls that are left when a first one has failed.
  unfoldable pub wait_for_ready_claim : ℕ → Bytes → World → Result Error Claim × World
  wait_for_ready_claim zero name w = elim (polled (env.get_claim w name)) [
    | some result ↦ (result, w)
    | none ↦ (err ready_timeout, w)
  ]
  wait_for_ready_claim (suc rounds) name w = elim (polled (env.get_claim w name)) [
    | some result ↦ (result, w)
    | none ↦ wait_for_ready_claim rounds name (env.poll w)
  ]

  -- `verifyRuntime`
  unfoldable pub verify_runtime : Claim → Pool → World → Result Error (Unit {0})
  verify_runtime claim pool w = elim (env.get_sandbox w claim.sandbox_name) [
    | err e ↦ err (api_failure e)
    | ok pod_name ↦
        if pod_name == []
        then err (typed 502 "SANDBOX_POD_NOT_FOUND" "Sandbox Pod was not reported")
        else elim (env.get_pod w pod_name) [
          | err e ↦ err (api_failure e)
          | ok pod ↦
              if not (same_class pod.runtime_class_name pool.runtime_class_name)
              then err (
                  typed 502 "RUNTIME_CLASS_MISMATCH"
                    "Sandbox runtime class does not match Pool policy")
              else if container_of pool.container_name pod.containers == []
              then err (typed 502 "SANDBOX_CONTAINER_NOT_FOUND" "Sandbox Pod has no container")
              else ok tt
        ]
  ]

  -- The claim is deleted as far as it can be.
  unfoldable pub discard : Error → Record → Operation World AcquireResult
  discard e lease node = (err e, (delete_claim env b lease.id node).1)

  -- `Acquire` once the claim is made.
  unfoldable pub await_lease : Pool → Record → Operation World AcquireResult
  await_lease pool lease node =
      let ready = wait_for_ready_claim (env.polls node.world) lease.id node.world in
      let next = record node { world = ready.1 } in
      elim ready.0 [
        | err e ↦ discard e lease next
        | ok claim ↦ elim (verify_runtime claim pool ready.1) [
          | err e ↦ discard e lease next
          | ok u ↦ (ok (record { lease = lease; replayed = false }), next)
        ]
      ]

  -- `newLeaseID`
  abbrev pub new_lease_id : World → Bytes
  new_lease_id w = bytes "lease-" ++ encode_hex (env.random w).0

  -- The record of a new Lease.
  unfoldable pub new_record : ℤ → AcquireRequest → World → Record
  new_record ttl request w = record {
    id = new_lease_id w;
    pool = request.pool;
    status = active;
    created_at = env.now w;
    expires_at = add_seconds (env.now w) ttl;
    last_used_at = env.now w;
  }

  -- `Acquire` from the answer to the creation of its claim on.
  unfoldable pub created_lease :
      Result ApiError (Unit {0}) → Pool → Record → Operation World AcquireResult
  created_lease (err e) pool lease node = (err (other "create SandboxClaim"), node)
  created_lease (ok u) pool lease node = await_lease pool lease node

  -- `Acquire` from the clock on.
  unfoldable pub create_lease : Pool → ℤ → Scope → AcquireRequest → Operation World AcquireResult
  create_lease pool ttl scope request node =
      let lease = new_record ttl request node.world in
      let claim = build_claim env b lease scope request.idempotency_key pool in
      let created = env.create_claim claim ((env.random node.world).1) in
      created_lease created.0 pool lease (record node { world = created.1 })

  unfoldable pub replay_or_create :
      Pool → ℤ → Scope → AcquireRequest → Option Record → Operation World AcquireResult
  replay_or_create pool ttl scope request none node = create_lease pool ttl scope request node
  replay_or_create pool ttl scope request (some existing) node =
      (ok (record { lease = existing; replayed = true }), node)

  -- `Acquire`
  unfoldable pub acquire_lease : Scope → AcquireRequest → Operation World AcquireResult
  acquire_lease scope request node = elim (lookup request.pool b.pools) [
    | none ↦ (err unknown_pool, node)
    | some pool ↦
        let ttl = ttl_or b.default_ttl request.ttl_seconds in
        if leb_ℤ ttl (pos 0) || ltb_ℤ b.max_ttl ttl
        then (err invalid_lease_ttl, node)
        else (find_by_idempotency_key scope request.idempotency_key
              >>= replay_or_create pool ttl scope request)
            node
  ]
