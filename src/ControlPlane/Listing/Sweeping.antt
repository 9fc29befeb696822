-- ===== src/ControlPlane/Listing/Sweeping.antt =====
-- apps/control-plane-go/internal/backend/kubernetes/backend.go: a sweep takes away what has expired,
-- and nothing else.
use agent_sandbox_platform.Base.{
  ℕ, ◌≤◌, true, false, none, List, [], ◌∷◌, Bytes, ◌==◌, bytes_eq, ◌≡◌, inl, inr, refl, sym, ap,
  subst, ◌∙◌, arith, ltb, Occurs, if◌then◌else◌, Bool-cases,
}
use agent_sandbox_platform.Base.Dict.{Dict, lookup}
use agent_sandbox_platform.Base.Result.{Result, ok, err, Result-cases}
use agent_sandbox_platform.ControlPlane.Lease.{Record, Error}
use agent_sandbox_platform.ControlPlane.Cluster.{
  Claim, ClaimList, Environment, Node, after_call-ok, ◌>>=◌,
}
use agent_sandbox_platform.ControlPlane.Claims.{
  Backend, record_from_claim, stop_transfers, wait_transfers, delete_claim,
}
use agent_sandbox_platform.ControlPlane.Claims.Store.{
  living, IsStore, living-delete_claim, delete_claim-ok,
}
use agent_sandbox_platform.ControlPlane.Listing.{sweep, sweep_expired, managed_selector}

-- The clock does not go back while the backend waits or deletes.
pub record IsClock {World : Type 0} (env : Environment World) : Type 0 where
  pub waiting_later : (w : World) → env.now w ≤ env.now ((env.waiting w).1)
  pub remove_later : (id : Bytes) (w : World) → env.now w ≤ env.now ((env.remove_claim id w).1)

module _ {World : Type 0} (env : Environment World) (b : Backend)
    (claims : World → Dict Bytes Claim) (store : IsStore env claims) (clock : IsClock env) where
  -- A claim whose Lease has expired at a time, and that is not being deleted already.
  pub record IsOver (now : ℕ) (claim : Claim) : Type 0 where
    pub lease : Record
    pub kept : claim.deleting ≡ false
    pub readable : record_from_claim env b claim ≡ ok lease
    pub late : lease.expires_at ≤ now

  name-record_from_claim :
      (claim : Claim) (lease : Record)
      → record_from_claim env b claim ≡ ok lease
      → lease.id ≡ claim.name
  unfolding record_from_claim
  name-record_from_claim claim lease h = ground (arith, h)

  -- One expired claim taken away.
  removed : Bytes → Node World → Node World
  removed id node = (delete_claim env b id ((stop_transfers env b id node).1)).1

  now-removed :
      (id : Bytes) (node : Node World) → env.now node.world ≤ env.now (removed id node).world
  unfolding removed delete_claim stop_transfers wait_transfers
  now-removed id node =
      omega
        (arith, clock.waiting_later node.world, clock.remove_later id ((env.waiting node.world).1))

  living-removed :
      (id : Bytes) (node : Node World) (j : Bytes)
      → living (lookup j (claims (removed id node).world))
        ≡ (if j == id then none else living (lookup j (claims node.world)))
  unfolding removed stop_transfers wait_transfers
  living-removed id node j = rw (
    living-delete_claim env b claims store id ((stop_transfers env b id node).1) j,
    store.waiting_keeps node.world j,
  )

  -- The rest of a sweep after an expired claim.
  sweep_after : Bytes → List Claim → Node World → Result Error (Unit {0}) × Node World
  sweep_after id rest =
      stop_transfers env b id >>= λ u. delete_claim env b id >>= λ v. sweep env b rest

  sweep_after-ok :
      (id : Bytes) (rest : List Claim) (node : Node World)
      → (sweep_after id rest node).0 ≡ ok tt
      → sweep_after id rest node ≡ sweep env b rest (removed id node)
  unfolding sweep_after removed
  sweep_after-ok id rest node h =
      let stopped = stop_transfers env b id node in
      elim (Result-cases (stopped.0)) [
        | inl (e, p) ↦ absurd (ground (arith, h, p))
        | inr (u, p) ↦
            let next = λ (u : Unit {0}). delete_claim env b id >>= λ v. sweep env b rest in
            after_call-ok stopped u next p
            ∙ after_call-ok (delete_claim env b id (stopped.1)) tt (λ v. sweep env b rest)
                (delete_claim-ok env b claims store id (stopped.1))
      ]

  -- What a sweep of some claims did.
  pub record IsSwept (listed : List Claim) (before after : Node World) : Type 0 where
    pub gone :
        (claim : Claim)
        → Occurs claim listed
        → IsOver (env.now before.world) claim
        → living (lookup claim.name (claims after.world)) ≡ none
    pub never_back :
        (j : Bytes)
        → living (lookup j (claims before.world)) ≡ none
        → living (lookup j (claims after.world)) ≡ none
    pub later : env.now before.world ≤ env.now after.world
    pub spared :
        (j : Bytes)
        → ((claim : Claim)
            → Occurs claim listed
            → IsOver (env.now after.world) claim
            → (j == claim.name) ≡ false)
        → living (lookup j (claims after.world)) ≡ living (lookup j (claims before.world))

  IsSwept-past :
      (c : Claim) (rest : List Claim) (before after : Node World)
      → (IsOver (env.now before.world) c → ⊥)
      → IsSwept rest before after
      → IsSwept (c ∷ rest) before after
  IsSwept-past c rest before after open_claim v = record {
    gone = λ claim at o. elim at [
      | inl e ↦ absurd (open_claim (subst (IsOver (env.now before.world)) e o))
      | inr there ↦ v.gone claim there o
    ];
    never_back = v.never_back;
    later = v.later;
    spared = λ j other. v.spared j (λ claim at o. other claim (inr at) o);
  }

  not_over :
      (c : Claim) (lease : Record) (now : ℕ)
      → record_from_claim env b c ≡ ok lease
      → ltb now lease.expires_at ≡ true
      → IsOver now c
      → ⊥
  not_over c lease now r a o =
      let same : o.lease ≡ lease = ground (arith, r, o.readable) in ground (arith, same, a, o.late)

  IsOver-later :
      (now later : ℕ) (claim : Claim) → now ≤ later → IsOver now claim → IsOver later claim
  IsOver-later now later claim le o = record {
    lease = o.lease;
    kept = o.kept;
    readable = o.readable;
    late = omega (arith, o.late);
  }

  IsSwept-away :
      (c : Claim) (rest : List Claim) (before after : Node World)
      → IsOver (env.now before.world) c
      → IsSwept rest (removed c.name before) after
      → IsSwept (c ∷ rest) before after
  IsSwept-away c rest before after over v = record {
    gone = λ claim at o. elim at [
      | inl e ↦ rw e (v.never_back c.name (living-removed c.name before c.name ∙ ground arith))
      | inr there ↦ v.gone claim there (
          IsOver-later (env.now before.world) (env.now (removed c.name before).world) claim
            (now-removed c.name before) o)
    ];
    never_back = λ j none_before.
        v.never_back j (ground (arith, none_before, living-removed c.name before j));
    later = omega (arith, v.later, now-removed c.name before);
    spared = λ j other.
        let still_over =
          IsOver-later (env.now before.world) (env.now after.world) c
            (omega (arith, v.later, now-removed c.name before)) over in
        v.spared j (λ claim at o. other claim (inr at) o)
        ∙ living-removed c.name before j
        ∙ ground (arith, other c (inl refl) still_over);
  }

  sweep-deleting :
      (c : Claim) (rest : List Claim) (node : Node World)
      → c.deleting ≡ true
      → sweep env b (c ∷ rest) node ≡ sweep env b rest node
  unfolding sweep
  sweep-deleting c rest node d = ground (arith, d)

  sweep-alive :
      (c : Claim) (rest : List Claim) (node : Node World) (lease : Record)
      → c.deleting ≡ false
      → record_from_claim env b c ≡ ok lease
      → ltb (env.now node.world) lease.expires_at ≡ true
      → sweep env b (c ∷ rest) node ≡ sweep env b rest node
  unfolding sweep
  sweep-alive c rest node lease d r a = ground (arith, d, r, a)

  sweep-over :
      (c : Claim) (rest : List Claim) (node : Node World) (lease : Record)
      → c.deleting ≡ false
      → record_from_claim env b c ≡ ok lease
      → ltb (env.now node.world) lease.expires_at ≡ false
      → sweep env b (c ∷ rest) node ≡ sweep_after lease.id rest node
  unfolding sweep sweep_after
  sweep-over c rest node lease d r a = ground (arith, d, r, a)

  sweep-unreadable :
      (c : Claim) (rest : List Claim) (node : Node World) (e : Error)
      → c.deleting ≡ false
      → record_from_claim env b c ≡ err e
      → sweep env b (c ∷ rest) node ≡ (err e, node)
  unfolding sweep
  sweep-unreadable c rest node e d r = ground (arith, d, r)

  sweep-IsSwept :
      (listed : List Claim) (node : Node World)
      → (sweep env b listed node).0 ≡ ok tt
      → IsSwept listed node ((sweep env b listed node).1)
  sweep-IsSwept [] node h =
      unfold sweep in
      record {
        gone = λ claim at o. absurd at;
        never_back = λ j e. e;
        later = omega arith;
        spared = λ j other. refl;
      }
  sweep-IsSwept (c ∷ rest) node h =
      let along =
        λ (r : Result Error (Unit {0}) × Node World) (e : sweep env b (c ∷ rest) node ≡ r)
            (v : IsSwept (c ∷ rest) node (r.1)).
          subst (λ (q : Result Error (Unit {0}) × Node World). IsSwept (c ∷ rest) node (q.1))
            (sym e) v in
      elim (Bool-cases c.deleting) [
        | inl d ↦
            let e = sweep-deleting c rest node d in
            along (sweep env b rest node) e (
              IsSwept-past c rest node ((sweep env b rest node).1) (λ o. ground (arith, d, o.kept))
                (sweep-IsSwept rest node (ap (λ r. r.0) (sym e) ∙ h)))
        | inr d ↦ elim (Result-cases (record_from_claim env b c)) [
          | inl (e, r) ↦ absurd (ground (arith, h, sweep-unreadable c rest node e d r))
          | inr (lease, r) ↦ elim (Bool-cases (ltb (env.now node.world) lease.expires_at)) [
            | inl a ↦
                let e = sweep-alive c rest node lease d r a in
                along (sweep env b rest node) e (
                  IsSwept-past c rest node ((sweep env b rest node).1)
                    (not_over c lease (env.now node.world) r a)
                    (sweep-IsSwept rest node (ap (λ r. r.0) (sym e) ∙ h)))
            | inr a ↦
                let e = sweep-over c rest node lease d r a in
                let named = name-record_from_claim c lease r in
                let f =
                  sweep_after-ok lease.id rest node (ap (λ r. r.0) (sym e) ∙ h)
                  ∙ ap (λ id. sweep env b rest (removed id node)) named in
                along (sweep env b rest (removed c.name node)) (e ∙ f) (
                  IsSwept-away c rest node ((sweep env b rest (removed c.name node)).1)
                    (record { lease = lease; kept = d; readable = r; late = ground (arith, a) })
                    (sweep-IsSwept rest (removed c.name node) (ap (λ r. r.0) (sym (e ∙ f)) ∙ h)))
          ]
        ]
      ]

  -- A sweep that succeeds leaves no living claim of those that the API server listed and that had
  -- expired when it began, and brings none back. A claim lives after it as before unless it has the name
  -- of a listed one that is not being deleted and has expired when the sweep ends: the sweep spares every
  -- Lease that has not expired, listed or not. The clock does not go back meanwhile.
  pub sweep_expired-IsSwept :
      (node : Node World) (listed : ClaimList)
      → env.list_claims node.world (managed_selector env b) 0 [] ≡ ok listed
      → (sweep_expired env b node).0 ≡ ok tt
      → IsSwept listed.items node ((sweep_expired env b node).1)
  unfolding sweep_expired
  sweep_expired-IsSwept node listed asked h =
      rw (sweep_expired, asked) (sweep-IsSwept listed.items node (ground (arith, h, asked)))
