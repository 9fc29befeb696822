-- ===== src/ControlPlane/Acquire/Replays.antt =====
-- apps/control-plane-go/internal/backend/kubernetes/backend.go: a request that is made again is given
-- the same Lease.
use agent_sandbox_platform.Base.{
  true, false, some, List, [], ◌∷◌, Bytes, bytes_eq, ◌≡◌, refl, ap, ◌∙◌, arith, ltb, Occurs,
  Bool-cases, inl, inr,
}
use agent_sandbox_platform.Base.Dict.{Dict, lookup}
use agent_sandbox_platform.Base.Int.{pos, leb_ℤ, ltb_ℤ}
use agent_sandbox_platform.Base.Result.{ok}
use agent_sandbox_platform.Base.Text.{bytes}
use agent_sandbox_platform.ControlPlane.Lease.{Scope, Record, active}
use agent_sandbox_platform.ControlPlane.Cursors.{scope_hash, idempotency_hash}
use agent_sandbox_platform.ControlPlane.Cluster.{Claim, ClaimList, Environment, Node}
use agent_sandbox_platform.ControlPlane.Claims.{
  Backend, Pool, build_claim, record_from_claim, managed_label, scope_label, idempotency_label,
}
use agent_sandbox_platform.ControlPlane.Claims.Store.{Identity, identity}
use agent_sandbox_platform.ControlPlane.Claims.Labels.{carries, has_value-some, IsListing}
use agent_sandbox_platform.ControlPlane.Acquire.{
  AcquireRequest, ttl_or, idempotency_selector, first_usable, find_by_idempotency_key,
  replay_or_create, acquire_lease,
}
use agent_sandbox_platform.ControlPlane.Acquire.Reading.{record_from_claim-build_claim}

module _ {World : Type 0} (env : Environment World) (b : Backend) where
  -- A claim that the loop can give out at a time, as a Lease.
  record IsUsable (w : World) (claim : Claim) (lease : Record) : Type 0 where
    kept : claim.deleting ≡ false
    readable : record_from_claim env b claim ≡ ok lease
    alive : ltb (env.now w) lease.expires_at ≡ true

  first_usable-only :
      (items : List Claim) (claim : Claim) (lease : Record) (node : Node World)
      → Occurs claim items
      → ((c : Claim) → Occurs c items → c.deleting ≡ false → c ≡ claim)
      → IsUsable node.world claim lease
      → first_usable env b items node ≡ (ok (some lease), node)
  unfolding first_usable
  first_usable-only [] claim lease node at only u = absurd at
  first_usable-only (c ∷ items) claim lease node at only u = elim (Bool-cases c.deleting) [
    | inr d ↦
        let same : c ≡ claim = only c (inl refl) d in
        let readable : record_from_claim env b c ≡ ok lease =
          ap (record_from_claim env b) same ∙ u.readable in
        ground (arith, d, readable, u.alive)
    | inl d ↦ elim at [
      | inl e ↦ absurd (ground (arith, d, u.kept, ap (λ (k : Claim). k.deleting) e))
      | inr there ↦
          let rest =
            first_usable-only items claim lease node there (λ k in_rest. only k (inr in_rest)) u in
          rw (first_usable, d) rest
    ]
  ]

  -- A claim that carries the labels of a request: it was made for the scope and the key.
  record IsKeyed (scope : Scope) (key : Bytes) (claim : Claim) : Type 0 where
    managed : lookup managed_label claim.labels ≡ some (bytes "true")
    scoped : lookup scope_label claim.labels ≡ some (scope_hash env.packages b.secret scope)
    keyed :
        lookup idempotency_label claim.labels
        ≡ some (idempotency_hash env.packages b.secret scope key)

  carries-IsKeyed :
      (scope : Scope) (key : Bytes) (claim : Claim)
      → carries (idempotency_selector env b scope key) claim ≡ true
      → IsKeyed scope key claim
  unfolding carries idempotency_selector
  carries-IsKeyed scope key claim h = record {
    managed = has_value-some (bytes "true") (lookup managed_label claim.labels) (ground (arith, h));
    scoped =
        has_value-some (scope_hash env.packages b.secret scope) (lookup scope_label claim.labels)
          (ground (arith, h));
    keyed =
        has_value-some (idempotency_hash env.packages b.secret scope key)
          (lookup idempotency_label claim.labels) (ground (arith, h));
  }

  carries-build_claim :
      (lease : Record) (scope : Scope) (key : Bytes) (pool : Pool) (claim : Claim)
      → identity claim ≡ identity (build_claim env b lease scope key pool)
      → carries (idempotency_selector env b scope key) claim ≡ true
  unfolding carries idempotency_selector build_claim lookup bytes_eq
  carries-build_claim lease scope key pool claim same =
      let l : claim.labels ≡ (build_claim env b lease scope key pool).labels =
        ap (λ (i : Identity). i.labels) same in
      rw (carries, l) (ground arith)

  -- Where there is a claim that `build_claim` made of a Lease for the scope and the idempotency key, that
  -- is not being deleted and has not expired, and no other claim that is not being deleted carries
  -- the labels of the scope and of the key, a request with a known pool and a valid time to live is given
  -- that Lease as a replay, and nothing is created or changed. The API server lists claims by their
  -- labels, and the two times of the Lease can be read back.
  pub acquire_lease-replays :
      (claims : World → Dict Bytes Claim) (scope : Scope) (request : AcquireRequest)
      (node : Node World) (pool made_for : Pool) (listed : ClaimList) (claim : Claim)
      (lease : Record)
      → IsListing env claims node.world
      → lookup request.pool b.pools ≡ some pool
      → leb_ℤ (ttl_or b.default_ttl request.ttl_seconds) (pos 0) ≡ false
      → ltb_ℤ b.max_ttl (ttl_or b.default_ttl request.ttl_seconds) ≡ false
      → env.list_claims node.world (idempotency_selector env b scope request.idempotency_key) 0 []
        ≡ ok listed
      → lookup claim.name (claims node.world) ≡ some claim
      → claim.deleting ≡ false
      → identity claim ≡ identity (build_claim env b lease scope request.idempotency_key made_for)
      → lease.status ≡ active
      → lease.last_used_at ≡ lease.created_at
      → env.parse_time (env.format_time lease.created_at) ≡ some lease.created_at
      → env.parse_time (env.format_time lease.expires_at) ≡ some lease.expires_at
      → ltb (env.now node.world) lease.expires_at ≡ true
      → ((c : Claim)
          → lookup c.name (claims node.world) ≡ some c
          → c.deleting ≡ false
          → lookup managed_label c.labels ≡ some (bytes "true")
          → lookup scope_label c.labels ≡ some (scope_hash env.packages b.secret scope)
          → lookup idempotency_label c.labels
            ≡ some (idempotency_hash env.packages b.secret scope request.idempotency_key)
          → c ≡ claim)
      → acquire_lease env b scope request node
        ≡ (ok (record { lease = lease; replayed = true }), node)
  unfolding acquire_lease find_by_idempotency_key replay_or_create
  acquire_lease-replays claims scope request node pool made_for listed claim lease law known low
        high asked there kept made status used first last alive only =
      let key = request.idempotency_key in
      let selector = idempotency_selector env b scope key in
      let whole = law.unlimited selector listed asked in
      let at =
        law.whole selector 0 listed asked whole claim there
          (carries-build_claim lease scope key made_for claim made) in
      let readable =
        record_from_claim-build_claim env b lease scope key made_for claim first last status used
          made in
      let found : first_usable env b listed.items node ≡ (ok (some lease), node) =
        first_usable-only listed.items claim lease node at
          (λ c in_list d.
            let k =
              carries-IsKeyed scope key c (law.selected selector 0 [] listed asked c in_list) in
            only c (law.stored selector 0 listed asked c in_list) d k.managed k.scoped k.keyed)
          (record { kept = kept; readable = readable; alive = alive }) in
      rw (acquire_lease, known, low, high, asked, found)
