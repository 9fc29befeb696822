-- ===== src/ControlPlane/Listing/Readiness.antt =====
-- apps/control-plane-go/internal/backend/kubernetes/backend.go: when the backend says that it is ready.
use agent_sandbox_platform.Base.{
  false, some, [], ◌∷◌, Bytes, ◌≡◌, arith, All, Option-cases, inl, inr,
}
use agent_sandbox_platform.Base.Dict.{Dict}
use agent_sandbox_platform.Base.Int.{ℤ, pos, ltb_ℤ}
use agent_sandbox_platform.Base.Result.{ok, Result-cases}
use agent_sandbox_platform.ControlPlane.Cluster.{WarmPool, ClaimList, Environment}
use agent_sandbox_platform.ControlPlane.Claims.{Backend, Pool}
use agent_sandbox_platform.ControlPlane.Listing.{warm_pool_ready, pools_ready, ready}

module _ {World : Type 0} (env : Environment World) (b : Backend) where
  -- The warm pool of a Pool wants at least one replica and has as many ready as it wants.
  pub record IsWarm (w : World) (pool : Pool) : Type 0 where
    pub warm_pool : WarmPool
    pub ready_replicas : ℤ
    pub replicas : ℤ
    pub there : env.get_warm_pool w pool.warm_pool_name ≡ ok warm_pool
    pub reported : warm_pool.ready_replicas ≡ some ready_replicas
    pub wanted : warm_pool.replicas ≡ some replicas
    pub positive : ltb_ℤ replicas (pos 1) ≡ false
    pub enough : ltb_ℤ ready_replicas replicas ≡ false

  warm_pool_ready-IsWarm :
      (w : World) (pool : Pool) (warm_pool : WarmPool)
      → env.get_warm_pool w pool.warm_pool_name ≡ ok warm_pool
      → warm_pool_ready env b warm_pool ≡ ok tt
      → IsWarm w pool
  unfolding warm_pool_ready
  warm_pool_ready-IsWarm w pool warm_pool there h = elim (Option-cases (warm_pool.ready_replicas)) [
    | inl e ↦ absurd (ground (arith, h, e))
    | inr (have, e) ↦ elim (Option-cases (warm_pool.replicas)) [
      | inl f ↦ absurd (ground (arith, h, e, f))
      | inr (want, f) ↦ record {
        warm_pool = warm_pool;
        ready_replicas = have;
        replicas = want;
        there = there;
        reported = e;
        wanted = f;
        positive = ground (arith, h, e, f);
        enough = ground (arith, h, e, f);
      }
    ]
  ]

  pools_ready-IsWarm :
      (pools : Dict Bytes Pool) (w : World)
      → pools_ready env b pools w ≡ ok tt
      → All (λ entry. IsWarm w entry.1) pools
  unfolding pools_ready
  pools_ready-IsWarm [] w h = tt
  pools_ready-IsWarm ((name, pool) ∷ pools) w h =
      elim (Result-cases (env.get_warm_pool w pool.warm_pool_name)) [
        | inl (e, p) ↦ absurd (ground (arith, h, p))
        | inr (warm_pool, p) ↦ elim (Result-cases (warm_pool_ready env b warm_pool)) [
          | inl (e, q) ↦ absurd (ground (arith, h, p, q))
          | inr (u, q) ↦ (
            warm_pool_ready-IsWarm w pool warm_pool p q,
            pools_ready-IsWarm pools w (ground (arith, h, p, q)),
          )
        ]
      ]

  -- The backend is ready only if the API server lists claims and sandboxes, and every Pool has a warm
  -- pool that wants at least one replica and has as many ready as it wants.
  pub ready-IsWarm :
      (w : World)
      → ready env b w ≡ ok tt
      → (claims : ClaimList) × (env.list_claims w [] 1 [] ≡ ok claims)
        × (env.list_sandboxes w ≡ ok tt)
        × All (λ entry. IsWarm w entry.1) b.pools
  unfolding ready
  ready-IsWarm w h = elim (Result-cases (env.list_claims w [] 1 [])) [
    | inl (e, p) ↦ absurd (ground (arith, h, p))
    | inr (claims, p) ↦ elim (Result-cases (env.list_sandboxes w)) [
      | inl (e, q) ↦ absurd (ground (arith, h, p, q))
      | inr (u, q) ↦ (claims, p, q, pools_ready-IsWarm b.pools w (ground (arith, h, p, q)))
    ]
  ]
