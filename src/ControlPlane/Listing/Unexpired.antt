-- ===== src/ControlPlane/Listing/Unexpired.antt =====
-- apps/control-plane-go/internal/backend/kubernetes/backend.go: what the loop of `List` takes of the
-- listed claims.
use agent_sandbox_platform.Base.{
  true, false, List, [], ◌∷◌, bytes_eq, ◌≡◌, inl, inr, refl, sym, subst, arith, Occurs, Bool-cases,
}
use agent_sandbox_platform.Base.Int.{ℤ, pos, ltb_ℤ}
use agent_sandbox_platform.Base.Result.{ok, Result-cases}
use agent_sandbox_platform.ControlPlane.Lease.{Record}
use agent_sandbox_platform.ControlPlane.Cluster.{Claim, Environment}
use agent_sandbox_platform.ControlPlane.Claims.{Backend, record_from_claim}
use agent_sandbox_platform.ControlPlane.Listing.{unexpired}

module _ {World : Type 0} (env : Environment World) (b : Backend) where
  -- A claim is the Lease `lease`, is not being deleted, and expires after a time.
  pub record IsOpen (as_of : ℤ) (claim : Claim) (lease : Record) : Type 0 where
    pub kept : claim.deleting ≡ false
    pub readable : record_from_claim env b claim ≡ ok lease
    pub alive : ltb_ℤ as_of (pos lease.expires_at) ≡ true

  -- The Leases of some claims that are open, in the order of the claims and each once.
  pub data IsInOrder (as_of : ℤ) : List Claim → List Record → Type 0 where
    no_more : IsInOrder as_of [] []
    left_out :
        (claim : Claim) (claims : List Claim) (leases : List Record)
        → ((lease : Record) → IsOpen as_of claim lease → ⊥)
        → IsInOrder as_of claims leases
        → IsInOrder as_of (claim ∷ claims) leases
    shown :
        (claim : Claim) (lease : Record) (claims : List Claim) (leases : List Record)
        → IsOpen as_of claim lease
        → IsInOrder as_of claims leases
        → IsInOrder as_of (claim ∷ claims) (lease ∷ leases)

  -- A Lease on a page is an open one that the API server listed, and every such one is on the page.
  pub record IsExact (as_of : ℤ) (claims : List Claim) (leases : List Record) : Type 0 where
    pub sound :
        (lease : Record)
        → Occurs lease leases
        → (claim : Claim) × Occurs claim claims × IsOpen as_of claim lease
    pub complete :
        (claim : Claim) (lease : Record)
        → Occurs claim claims
        → IsOpen as_of claim lease
        → Occurs lease leases

  skipped :
      (as_of : ℤ) (c : Claim) (claims : List Claim) (leases : List Record)
      → ((lease : Record) → IsOpen as_of c lease → ⊥)
      → IsExact as_of claims leases
      → IsExact as_of (c ∷ claims) leases
  skipped as_of c claims leases closed v = record {
    sound = λ lease m. let (claim, at, o) = v.sound lease m in (claim, inr at, o);
    complete = λ claim lease at o. elim at [
      | inl e ↦ absurd (closed lease (subst (λ k. IsOpen as_of k lease) e o))
      | inr there ↦ v.complete claim lease there o
    ];
  }

  listed :
      (as_of : ℤ) (c : Claim) (claims : List Claim) (lease : Record) (leases : List Record)
      → IsOpen as_of c lease
      → IsExact as_of claims leases
      → IsExact as_of (c ∷ claims) (lease ∷ leases)
  listed as_of c claims lease leases o v = record {
    sound = λ l m. elim m [
      | inl e ↦ (c, inl refl, subst (λ k. IsOpen as_of c k) (sym e) o)
      | inr there ↦ let (claim, at, p) = v.sound l there in (claim, inr at, p)
    ];
    complete = λ claim l at p. elim at [
      | inl e ↦ inl (ground (arith, e, p.readable, o.readable))
      | inr there ↦ inr (v.complete claim l there p)
    ];
  }

  closed_by :
      {as_of : ℤ} (c : Claim) (lease : Record)
      → record_from_claim env b c ≡ ok lease
      → ltb_ℤ as_of (pos lease.expires_at) ≡ false
      → (other : Record) → IsOpen as_of c other
      → ⊥
  closed_by c lease r a other o =
      let e : other ≡ lease = ground (arith, r, o.readable) in ground (arith, e, a, o.alive)

  pub unexpired-IsInOrder :
      (as_of : ℤ) (claims : List Claim) (leases : List Record)
      → unexpired env b as_of claims ≡ ok leases
      → IsInOrder as_of claims leases
  unfolding unexpired
  unexpired-IsInOrder as_of [] [] h = no_more
  unexpired-IsInOrder as_of [] (l ∷ leases) h = absurd (ground (arith, h))
  unexpired-IsInOrder as_of (c ∷ claims) leases h = elim (Bool-cases c.deleting) [
    | inl d ↦
        left_out c claims leases (λ lease o. ground (arith, d, o.kept))
          (unexpired-IsInOrder as_of claims leases (ground (arith, h, d)))
    | inr d ↦ elim (Result-cases (record_from_claim env b c)) [
      | inl (e, r) ↦ absurd (ground (arith, h, d, r))
      | inr (lease, r) ↦ elim (Bool-cases (ltb_ℤ as_of (pos lease.expires_at))) [
        | inl a ↦ elim (Result-cases (unexpired env b as_of claims)) [
          | inl (e, p) ↦ absurd (ground (arith, h, d, r, a, p))
          | inr (rest, p) ↦ subst (IsInOrder as_of (c ∷ claims)) (ground (arith, h, d, r, a, p)) (
              shown c lease claims rest (record { kept = d; readable = r; alive = a })
                (unexpired-IsInOrder as_of claims rest p))
        ]
        | inr a ↦
            left_out c claims leases (closed_by c lease r a)
              (unexpired-IsInOrder as_of claims leases (ground (arith, h, d, r, a)))
      ]
    ]
  ]

  pub IsExact-in_order :
      (as_of : ℤ) (claims : List Claim) (leases : List Record)
      → IsInOrder as_of claims leases
      → IsExact as_of claims leases
  IsExact-in_order as_of _ _ no_more = record {
    sound = λ lease m. absurd m;
    complete = λ claim lease at o. absurd at;
  }
  IsExact-in_order as_of _ _ (left_out c claims leases closed rest) =
      skipped as_of c claims leases closed (IsExact-in_order as_of claims leases rest)
  IsExact-in_order as_of _ _ (shown c lease claims leases o rest) =
      listed as_of c claims lease leases o (IsExact-in_order as_of claims leases rest)
