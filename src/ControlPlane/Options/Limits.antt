-- ===== src/ControlPlane/Options/Limits.antt =====
-- apps/control-plane-go/internal/backend/kubernetes/backend.go: what a backend that `New` made keeps to.
use agent_sandbox_platform.Base.{
  ◌≤◌, false, ◌||◌, some, [], ◌∷◌, Bytes, ◌==◌, bytes_eq, ◌≡◌, ◌≢◌, arith, Bool-cases, inl, inr,
  subst,
}
use agent_sandbox_platform.Base.Dict.{Dict, insert, lookup, lookup-insert}
use agent_sandbox_platform.Base.Int.{ℤ, pos, negsuc, leb_ℤ, ltb_ℤ, magnitude}
use agent_sandbox_platform.Base.Result.{ok, Result-cases}
use agent_sandbox_platform.ControlPlane.Claims.{Backend, Pool}
use agent_sandbox_platform.ControlPlane.Transfers.{TransferManager, new_transfer_manager}
use agent_sandbox_platform.ControlPlane.Options.{
  Options, is_blank, checked_pools, validate_pools, new_metadata_identity, limits_of, check_limits,
  make_backend, new_backend,
}

-- A pool whose warm pool and runtime class have a name.
pub record IsNamed (name : Bytes) (pool : Pool) : Type 0 where
  pub named : is_blank name ≡ false
  pub warm : is_blank pool.warm_pool_name ≡ false
  pub classed : is_blank pool.runtime_class_name ≡ false

-- Every pool that is found is named.
abbrev pub AllNamed : Dict Bytes Pool → Type 0
AllNamed pools = (name : Bytes) (pool : Pool) → lookup name pools ≡ some pool → IsNamed name pool

AllNamed-insert :
    (name : Bytes) (pool : Pool) (pools : Dict Bytes Pool)
    → IsNamed name pool
    → AllNamed pools
    → AllNamed (insert name pool pools)
AllNamed-insert name pool pools h v other found there = elim (Bool-cases (other == name)) [
  | inl e ↦
      let same : pool ≡ found = ground (arith, there, lookup-insert other name pool pools, e) in
      let named : name ≡ other = ground (arith, e) in
      subst (λ (p : Pool). IsNamed other p) same (subst (λ (n : Bytes). IsNamed n pool) named h)
  | inr e ↦ v other found (ground (arith, there, lookup-insert other name pool pools, e))
]

checked_pools-AllNamed :
    (pools result accepted : Dict Bytes Pool)
    → AllNamed result
    → checked_pools pools result ≡ ok accepted
    → AllNamed accepted
unfolding checked_pools
checked_pools-AllNamed [] result accepted v h = subst AllNamed (ground (arith, h)) v
checked_pools-AllNamed ((name, pool) ∷ pools) result accepted v h =
    elim (Bool-cases
      (is_blank name || is_blank pool.warm_pool_name || is_blank pool.runtime_class_name)) [
        | inl e ↦ absurd (ground (arith, h, e))
        | inr e ↦
            checked_pools-AllNamed pools (insert name pool result) accepted
              (AllNamed-insert name pool result
                (record {
                  named = ground (arith, e);
                  warm = ground (arith, e);
                  classed = ground (arith, e);
                })
                v)
              (ground (arith, h, e))
      ]

validate_pools-AllNamed :
    (pools accepted : Dict Bytes Pool) → validate_pools pools ≡ ok accepted → AllNamed accepted
unfolding validate_pools lookup
validate_pools-AllNamed [] accepted h = absurd (ground (arith, h))
validate_pools-AllNamed (entry ∷ pools) accepted h =
    checked_pools-AllNamed (entry ∷ pools) [] accepted (λ name pool e. absurd (ground (arith, e))) h

magnitude-positive : (n : ℤ) → ltb_ℤ n (pos 1) ≡ false → 1 ≤ magnitude n
magnitude-positive (pos n) h = ground (arith, h)
magnitude-positive (negsuc n) h = absurd (ground (arith, h))

magnitude_mono : (m n : ℤ) → ltb_ℤ n (pos 1) ≡ false → ltb_ℤ m n ≡ false → magnitude n ≤ magnitude m
magnitude_mono (pos m) (pos n) p h = ground (arith, h)
magnitude_mono (pos m) (negsuc n) p h = absurd (ground (arith, p))
magnitude_mono (negsuc m) (pos n) p h = absurd (ground (arith, h))
magnitude_mono (negsuc m) (negsuc n) p h = absurd (ground (arith, p))

magnitude-above : (n : ℤ) → leb_ℤ n (pos 0) ≡ false → 1 ≤ magnitude n
magnitude-above (pos n) h = ground (arith, h)
magnitude-above (negsuc n) h = absurd (ground (arith, h))

-- A backend that can serve: it has a secret, its pools are named, and its transfers have a place for
-- each Lease, as many as a Lease may have at least, and some time.
pub record IsServing (backend : Backend) (transfers : TransferManager) : Type 0 where
  pub keyed : backend.secret ≢ []
  pub pooled : AllNamed backend.pools
  pub room_per_lease : 1 ≤ transfers.max_per_lease
  pub room : transfers.max_per_lease ≤ transfers.max_global
  pub time : 1 ≤ transfers.timeout

make_backend-IsServing :
    (options : Options) (secret : Bytes) (pools : Dict Bytes Pool) (backend : Backend)
    (transfers : TransferManager)
    → secret ≢ []
    → AllNamed pools
    → make_backend options secret pools ≡ ok (backend, transfers)
    → IsServing backend transfers
unfolding make_backend check_limits new_transfer_manager
make_backend-IsServing options secret pools backend transfers keyed pooled h =
    let limits = limits_of options in
    elim (Result-cases (check_limits limits)) [
      | inl (e, p) ↦ absurd (ground (arith, h, p))
      | inr (u, p) ↦
          let low : ltb_ℤ limits.most_per_lease (pos 1) ≡ false = ground (arith, p) in
          let fits : ltb_ℤ limits.most limits.most_per_lease ≡ false = ground (arith, p) in
          let timed : leb_ℤ limits.longest (pos 0) ≡ false = ground (arith, p) in
          let b : backend.secret ≡ secret = ground (arith, h, p) in
          let q : pools ≡ backend.pools = ground (arith, h, p) in
          let g : transfers.max_global ≡ magnitude limits.most = ground (arith, h, p) in
          let l : transfers.max_per_lease ≡ magnitude limits.most_per_lease =
            ground (arith, h, p) in
          let t : transfers.timeout ≡ magnitude limits.longest = ground (arith, h, p) in
          record {
            keyed = λ e. keyed (ground (arith, e, b));
            pooled = subst AllNamed q pooled;
            room_per_lease = rw l (magnitude-positive limits.most_per_lease low);
            room = rw (l, g) (magnitude_mono limits.most limits.most_per_lease low fits);
            time = rw t (magnitude-above limits.longest timed);
          }
    ]

-- A backend that `New` made has a secret, only pools with names for themselves, their warm pool and
-- their runtime class, room for at least one transfer of each Lease, no more per Lease than in all,
-- and a positive time for each; whatever the options were.
pub new_backend-IsServing :
    (options : Options) (backend : Backend) (transfers : TransferManager)
    → new_backend options ≡ ok (backend, transfers)
    → IsServing backend transfers
unfolding new_backend new_metadata_identity
new_backend-IsServing options backend transfers h =
    elim (Result-cases (validate_pools options.pools)) [
      | inl (e, p) ↦ absurd (ground (arith, h, p))
      | inr (pools, p) ↦
          make_backend-IsServing options options.metadata_secret pools backend transfers
            (λ e. ground (arith, h, p, e)) (validate_pools-AllNamed options.pools pools p)
            (ground (arith, h, p))
    ]
