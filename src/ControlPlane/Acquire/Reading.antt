-- ===== src/ControlPlane/Acquire/Reading.antt =====
-- apps/control-plane-go/internal/backend/kubernetes/backend.go: a Lease that is given out can be read
-- back by its scope.
use agent_sandbox_platform.Base.{
  ℕ, ◌+◌, ◌*◌, ◌^◌, ◌<◌, true, false, Option, none, some, Bytes, bytes_eq, ◌≡◌, refl, sym, subst,
  ◌∙◌, ap, arith, ltb, inl, inr, Option-cases,
}
use agent_sandbox_platform.Base.Dict.{Dict, lookup}
use agent_sandbox_platform.Base.Int.{pos}
use agent_sandbox_platform.Base.Result.{Result, ok, err, Result-cases}
use agent_sandbox_platform.ControlPlane.Lease.{Scope, Record, AcquireResult, active}
use agent_sandbox_platform.ControlPlane.Cluster.{
  Claim, ApiError, Environment, Node, label, annotation,
}
use agent_sandbox_platform.ControlPlane.Claims.{
  Backend, Pool, build_claim, record_from_claim, belongs, found_claim, require_claim,
}
use agent_sandbox_platform.ControlPlane.Claims.Store.{Identity, identity, living, read_of, IsStore}
use agent_sandbox_platform.ControlPlane.Acquire.{
  AcquireRequest, new_record, create_lease, created_lease, await_lease, add_seconds-fits,
  verify_runtime, wait_for_ready_claim, discard,
}
use agent_sandbox_platform.ControlPlane.Acquire.Cleanup.{living-wait_for_ready_claim}
use agent_sandbox_platform.ControlPlane.Requests.{get_lease, get_record}

-- What is known of a claim that lives under an identity.
living-some :
    (found : Option Claim) (i : Identity)
    → living found ≡ some i
    → (claim : Claim) × (found ≡ some claim) × (claim.deleting ≡ false) × (identity claim ≡ i)
living-some none i h = absurd (ground (arith, h))
living-some (some claim) i h = (claim, refl, ground (arith, h), ground (arith, h))

module _ {World : Type 0} (env : Environment World) (b : Backend) where
  -- What `build_claim` wrote, read from any claim of the same identity.
  belongs-build_claim :
      (lease : Record) (scope : Scope) (key : Bytes) (pool : Pool) (claim : Claim)
      → claim.deleting ≡ false
      → identity claim ≡ identity (build_claim env b lease scope key pool)
      → belongs env b scope claim ≡ true
  unfolding belongs label build_claim lookup bytes_eq
  belongs-build_claim lease scope key pool claim kept same =
      let l : claim.labels ≡ (build_claim env b lease scope key pool).labels =
        ap (λ (i : Identity). i.labels) same in
      rw (belongs, label, l, kept) (ground arith)

  pub record_from_claim-build_claim :
      (lease : Record) (scope : Scope) (key : Bytes) (pool : Pool) (claim : Claim)
      → env.parse_time (env.format_time lease.created_at) ≡ some lease.created_at
      → env.parse_time (env.format_time lease.expires_at) ≡ some lease.expires_at
      → lease.status ≡ active
      → lease.last_used_at ≡ lease.created_at
      → identity claim ≡ identity (build_claim env b lease scope key pool)
      → record_from_claim env b claim ≡ ok lease
  unfolding record_from_claim annotation build_claim lookup bytes_eq
  record_from_claim-build_claim lease scope key pool claim first last status used same =
      let a : claim.annotations ≡ (build_claim env b lease scope key pool).annotations =
        ap (λ (i : Identity). i.annotations) same in
      let n : claim.name ≡ lease.id = ap (λ (i : Identity). i.name) same in
      rw (record_from_claim, annotation, a, first, annotation, a, last, annotation, a, n)
        (ground (arith, status, used))

  get_lease-living :
      (lease : Record) (scope : Scope) (key : Bytes) (pool : Pool) (node : Node World)
      (found : Option Claim)
      → env.parse_time (env.format_time lease.created_at) ≡ some lease.created_at
      → env.parse_time (env.format_time lease.expires_at) ≡ some lease.expires_at
      → lease.status ≡ active
      → lease.last_used_at ≡ lease.created_at
      → env.get_claim node.world lease.id ≡ read_of found
      → living found ≡ some (identity (build_claim env b lease scope key pool))
      → ltb (env.now node.world) lease.expires_at ≡ true
      → get_lease env b scope lease.id node ≡ (ok lease, node)
  unfolding get_lease require_claim found_claim get_record
  get_lease-living lease scope key pool node found first last status used reads lives alive =
      let (claim, there, kept, same) =
        living-some found (identity (build_claim env b lease scope key pool)) lives in
      let readable : env.get_claim node.world lease.id ≡ ok claim = reads ∙ ap read_of there in
      rw (
        get_lease,
        require_claim,
        readable,
        found_claim,
        belongs-build_claim lease scope key pool claim kept same,
        record_from_claim-build_claim lease scope key pool claim first last status used same,
        alive,
      )

module _ {World : Type 0} (env : Environment World) (b : Backend)
    (claims : World → Dict Bytes Claim) (store : IsStore env claims) where
  await_lease-ok :
      (pool : Pool) (lease : Record) (node : Node World) (result : AcquireResult)
      → (await_lease env b pool lease node).0 ≡ ok result
      → (result ≡ record { lease = lease; replayed = false })
        × ((j : Bytes)
            → living (lookup j (claims ((await_lease env b pool lease node).1.world)))
              ≡ living (lookup j (claims node.world)))
  unfolding await_lease discard
  await_lease-ok pool lease node result h =
      let waited = wait_for_ready_claim env b (env.polls node.world) lease.id node.world in
      elim (Result-cases (waited.0)) [
        | inl (failure, p) ↦ absurd (ground (arith, h, p))
        | inr (claim, p) ↦ elim (Result-cases (verify_runtime env b claim pool (waited.1))) [
          | inl (failure, q) ↦ absurd (ground (arith, h, p, q))
          | inr (u, q) ↦ (
            ground (arith, h, p, q),
            λ j.
                rw (await_lease, p, q)
                  (living-wait_for_ready_claim env b claims store (env.polls node.world) lease.id
                    node.world j),
          )
        ]
      ]

  created_lease-ok :
      (made : Result ApiError (Unit {0})) (pool : Pool) (lease : Record) (node : Node World)
      (result : AcquireResult)
      → (created_lease env b made pool lease node).0 ≡ ok result
      → (made ≡ ok tt)
        × (result ≡ record { lease = lease; replayed = false })
        × ((j : Bytes)
            → living (lookup j (claims ((created_lease env b made pool lease node).1.world)))
              ≡ living (lookup j (claims node.world)))
  unfolding created_lease
  created_lease-ok (err e) pool lease node result h = absurd (ground (arith, h))
  created_lease-ok (ok u) pool lease node result h =
      let (a, c) = await_lease-ok pool lease node result h in (refl, a, c)

  -- A claim that could be created lives.
  living-create_claim :
      (claim : Claim) (w : World)
      → claim.deleting ≡ false
      → (env.create_claim claim w).0 ≡ ok tt
      → living (lookup claim.name (claims ((env.create_claim claim w).1))) ≡ some (identity claim)
  living-create_claim claim w kept made = elim (Option-cases (lookup claim.name (claims w))) [
    | inl p ↦ rw (store.create_keeps claim w claim.name, p) (ground (arith, kept))
    | inr (old, p) ↦ absurd (ground (arith, made, store.create claim w, p))
  ]

  -- A new Lease is given out with the time to live that was asked for, where that is below 2^63
  -- nanoseconds, and its scope reads it back as it was given out until it expires, where the two times
  -- of the Lease can be read back from what is written of them.
  pub create_lease-get_lease :
      (pool : Pool) (n : ℕ) (scope : Scope) (request : AcquireRequest) (node after : Node World)
      (result : AcquireResult)
      → n * 1000000000 < 2 ^ 63
      → env.parse_time (env.format_time (env.now node.world)) ≡ some (env.now node.world)
      → env.parse_time (env.format_time (env.now node.world + n * 1000000000))
        ≡ some (env.now node.world + n * 1000000000)
      → create_lease env b pool (pos n) scope request node ≡ (ok result, after)
      → ltb (env.now after.world) result.lease.expires_at ≡ true
      → (result.lease.expires_at ≡ env.now node.world + n * 1000000000)
        × (result.replayed ≡ false)
        × (get_lease env b scope result.lease.id after ≡ (ok result.lease, after))
  unfolding create_lease build_claim new_record
  create_lease-get_lease pool n scope request node after result fits first last h alive =
      let lease = new_record env b (pos n) request node.world in
      let claim = build_claim env b lease scope request.idempotency_key pool in
      let created = env.create_claim claim ((env.random node.world).1) in
      let next = record node { world = created.1 } in
      let (made, given, kept) =
        created_lease-ok created.0 pool lease next result (ap (λ r. r.0) h) in
      let lives : living (lookup lease.id (claims after.world)) ≡ some (identity claim) =
        ap (λ (n : Node World). living (lookup lease.id (claims n.world))) (sym (ap (λ r. r.1) h))
        ∙ kept lease.id
        ∙ living-create_claim claim ((env.random node.world).1) refl made in
      let same : result.lease ≡ lease = rw given refl in
      let still : ltb (env.now after.world) lease.expires_at ≡ true =
        subst (λ (l : Record). ltb (env.now after.world) l.expires_at ≡ true) same alive in
      let ends : lease.expires_at ≡ env.now node.world + n * 1000000000 =
        add_seconds-fits (env.now node.world) n fits in
      let written : env.parse_time (env.format_time lease.expires_at) ≡ some lease.expires_at =
        subst (λ t. env.parse_time (env.format_time t) ≡ some t) (sym ends) last in
      let there =
        get_lease-living env b lease scope request.idempotency_key pool after
          (lookup lease.id (claims after.world)) first written refl refl
          (store.get after.world lease.id) lives still in
      (ap (λ (l : Record). l.expires_at) same ∙ ends, rw given refl, rw same there)
