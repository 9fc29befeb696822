-- ===== src/ControlPlane/Acquire/Cleanup.antt =====
-- apps/control-plane-go/internal/backend/kubernetes/backend.go: a Lease that could not be given out
-- leaves no claim behind.
use agent_sandbox_platform.Base.{
  ℕ, zero, suc, Option, none, Bytes, ◌==◌, bytes_eq, ◌≡◌, refl, ◌∙◌, ap, arith, if◌then◌else◌, inl,
  inr, Option-cases,
}
use agent_sandbox_platform.Base.Dict.{Dict, lookup}
use agent_sandbox_platform.Base.Int.{ℤ}
use agent_sandbox_platform.Base.Result.{Result, ok, err, Result-cases}
use agent_sandbox_platform.ControlPlane.Lease.{Scope, Record, Error}
use agent_sandbox_platform.ControlPlane.Cluster.{Claim, ApiError, Environment, Node}
use agent_sandbox_platform.ControlPlane.Claims.{Backend, Pool, build_claim}
use agent_sandbox_platform.ControlPlane.Claims.Store.{
  Identity, living, IsStore, living-delete_claim,
}
use agent_sandbox_platform.ControlPlane.Acquire.{
  AcquireRequest, polled, wait_for_ready_claim, verify_runtime, discard, await_lease, created_lease,
  new_record, create_lease,
}

module _ {World : Type 0} (env : Environment World) (b : Backend)
    (claims : World → Dict Bytes Claim) (store : IsStore env claims) where
  -- Waiting for a claim deletes none.
  pub living-wait_for_ready_claim :
      (rounds : ℕ) (name : Bytes) (w : World) (j : Bytes)
      → living (lookup j (claims ((wait_for_ready_claim env b rounds name w).1)))
        ≡ living (lookup j (claims w))
  unfolding wait_for_ready_claim
  living-wait_for_ready_claim zero name w j =
      elim (Option-cases (polled env b (env.get_claim w name))) [
        | inl e ↦ rw (wait_for_ready_claim, e) refl
        | inr (result, e) ↦ rw (wait_for_ready_claim, e) refl
      ]
  living-wait_for_ready_claim (suc rounds) name w j =
      elim (Option-cases (polled env b (env.get_claim w name))) [
        | inl e ↦
            rw (wait_for_ready_claim, e)
              (living-wait_for_ready_claim rounds name (env.poll w) j ∙ store.poll_keeps w j)
        | inr (result, e) ↦ rw (wait_for_ready_claim, e) refl
      ]

  living-discard :
      (e : Error) (lease : Record) (node : Node World) (j : Bytes)
      → living (lookup j (claims ((discard env b e lease node).1.world)))
        ≡ (if j == lease.id then none else living (lookup j (claims node.world)))
  unfolding discard
  living-discard e lease node j = living-delete_claim env b claims store lease.id node j

  discarded :
      (pool : Pool) (lease : Record) (node : Node World) (e : Error) (j : Bytes)
      → living (
          lookup j (
            claims (
              (discard env b e lease (record node {
                world = (wait_for_ready_claim env b (env.polls node.world) lease.id node.world).1;
              })).1.world)))
        ≡ (if j == lease.id then none else living (lookup j (claims node.world)))
  discarded pool lease node e j =
      let polls = env.polls node.world in
      let waited = (wait_for_ready_claim env b polls lease.id node.world).1 in
      rw (
        living-discard e lease (record node { world = waited }) j,
        living-wait_for_ready_claim polls lease.id node.world j,
      )

  -- After a failure the claim is gone, and the others live on.
  living-await_lease :
      (pool : Pool) (lease : Record) (node : Node World) (e : Error) (j : Bytes)
      → (await_lease env b pool lease node).0 ≡ err e
      → living (lookup j (claims ((await_lease env b pool lease node).1.world)))
        ≡ (if j == lease.id then none else living (lookup j (claims node.world)))
  unfolding await_lease
  living-await_lease pool lease node e j h =
      let waited = wait_for_ready_claim env b (env.polls node.world) lease.id node.world in
      elim (Result-cases (waited.0)) [
        | inl (failure, p) ↦ rw (await_lease, p) (discarded pool lease node failure j)
        | inr (claim, p) ↦ elim (Result-cases (verify_runtime env b claim pool (waited.1))) [
          | inl (failure, q) ↦ rw (await_lease, p, q) (discarded pool lease node failure j)
          | inr (u, q) ↦ absurd (ground (arith, h, p, q))
        ]
      ]

  -- What lives on after a failure, by the answer to the creation.
  left_after : Result ApiError (Unit {0}) → Bytes → Bytes → Option Identity → Option Identity
  left_after (err failure) id j before = before
  left_after (ok u) id j before = if j == id then none else before

  living-created_lease :
      (result : Result ApiError (Unit {0})) (pool : Pool) (lease : Record) (node : Node World)
      (e : Error) (j : Bytes)
      → (created_lease env b result pool lease node).0 ≡ err e
      → living (lookup j (claims ((created_lease env b result pool lease node).1.world)))
        ≡ left_after result lease.id j (living (lookup j (claims node.world)))
  unfolding created_lease left_after
  living-created_lease (err failure) pool lease node e j h = refl
  living-created_lease (ok u) pool lease node e j h = living-await_lease pool lease node e j h

  -- The creation of a claim, undone.
  left_after_create :
      (claim : Claim) (w : World) (j : Bytes)
      → left_after
          ((env.create_claim claim w).0)
          claim.name
          j
          (living (lookup j (claims ((env.create_claim claim w).1))))
        ≡ living (lookup j (claims w))
  unfolding left_after
  left_after_create claim w j = elim (Option-cases (lookup claim.name (claims w))) [
    | inl p ↦ rw (store.create claim w, p, store.create_keeps claim w j) (ground (arith, p))
    | inr (old, p) ↦ rw (store.create claim w, p, store.create_keeps claim w j) (ground (arith, p))
  ]

  -- An attempt to make a Lease that fails, whether its claim is refused, does not become ready or runs
  -- on another runtime, leaves the living claims as they were.
  pub living-create_lease :
      (pool : Pool) (ttl : ℤ) (scope : Scope) (request : AcquireRequest) (node : Node World)
      (e : Error) (j : Bytes)
      → (create_lease env b pool ttl scope request node).0 ≡ err e
      → living (lookup j (claims ((create_lease env b pool ttl scope request node).1.world)))
        ≡ living (lookup j (claims node.world))
  unfolding create_lease build_claim
  living-create_lease pool ttl scope request node e j h =
      let lease = new_record env b ttl request node.world in
      let claim = build_claim env b lease scope request.idempotency_key pool in
      let w = (env.random node.world).1 in
      let created = env.create_claim claim w in
      living-created_lease created.0 pool lease (record node { world = created.1 }) e j h
      ∙ left_after_create claim w j
      ∙ ap living (store.random_keeps node.world j)
