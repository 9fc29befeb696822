-- ===== src/ControlPlane/Listing.antt =====
-- apps/control-plane-go/internal/backend/kubernetes/backend.go: the operations on all Leases: `List`,
-- `ListActiveLeases`, `SweepExpired` and `Ready`.
pub mod Unexpired
pub mod Pages
pub mod Sweeping
pub mod Readiness
use agent_sandbox_platform.Base.{
  ℕ, Bool, true, false, not, ◌&&◌, ◌||◌, Option, none, some, List, [], ◌∷◌, ◌++◌, Bytes, ◌==◌,
  bytes_eq, ltb, if◌then◌else◌,
}
use agent_sandbox_platform.Base.Dict.{Dict, lookup}
use agent_sandbox_platform.Base.Int.{magnitude, ℤ, pos, negsuc, leb_ℤ, ltb_ℤ}
use agent_sandbox_platform.Base.Result.{Result, ok, err}
use agent_sandbox_platform.Base.Text.{bytes}
use agent_sandbox_platform.ControlPlane.Lease.{Scope, Record, Error, typed, other}
use agent_sandbox_platform.ControlPlane.Cursors.{
  ListCursorPayload, scope_hash, pool_hash, encode_cursor, decode_cursor,
}
use agent_sandbox_platform.ControlPlane.Cluster.{
  Claim, ClaimList, WarmPool, ApiError, absent, Environment, Node, Operation, after_call, ◌>>=◌,
  lift, passed, wrapped, label,
}
use agent_sandbox_platform.ControlPlane.Claims.{
  Backend, Pool, record_from_claim, stop_transfers, delete_claim, managed_label, scope_label,
  consumer_label, pool_hash_label,
}
use agent_sandbox_platform.ControlPlane.Acquire.{unknown_pool}

pub record ListRequest : Type 0 where
  pub pool : Bytes
  pub limit : ℤ
  pub cursor : Bytes

pub record Page : Type 0 where
  pub leases : List Record
  pub next_cursor : Option Bytes

pub record ActiveLease : Type 0 where
  pub lease : Record
  pub hash_of_scope : Bytes
  pub hash_of_consumer : Bytes

abbrev pub max_list_limit : ℤ
max_list_limit = pos 100

-- The message names the largest limit, which is left out here.
abbrev pub invalid_limit : Error
invalid_limit = typed 400 "INVALID_REQUEST" "limit must be an integer between 1 and the maximum"

abbrev pub exists_pool : Option Pool → Bool
exists_pool none = false
exists_pool (some pool) = true

-- What a failed list means to a caller who goes on from a page.
abbrev pub list_failure : Bytes → ApiError → Error
list_failure [] e = other "list SandboxClaims"
list_failure (c ∷ continuation) ApiError.expired =
    typed 410 "CURSOR_EXPIRED" "List cursor has expired"
list_failure (c ∷ continuation) absent = other "list SandboxClaims"
list_failure (c ∷ continuation) (ApiError.failed message) = other "list SandboxClaims"

-- A record in front of the records of the other claims.
abbrev pub with_record : {A : Type 0} → A → Result Error (List A) → Result Error (List A)
with_record lease (err e) = err e
with_record lease (ok leases) = ok (lease ∷ leases)

module _ {World : Type 0} (env : Environment World) (b : Backend) where
  -- The loop of `List`: the records that expire after a time.
  unfoldable pub unexpired : ℤ → List Claim → Result Error (List Record)
  unexpired as_of [] = ok []
  unexpired as_of (claim ∷ claims) =
      let rest = unexpired as_of claims in
      if claim.deleting then rest else elim (record_from_claim env b claim) [
        | err e ↦ err e
        | ok lease ↦
            if not (ltb_ℤ as_of (pos lease.expires_at)) then rest else with_record lease rest
      ]

  unfoldable pub list_selector : Scope → Bytes → Dict Bytes Bytes
  list_selector scope pool =
      let managed =
        (managed_label, bytes "true")
        ∷ (scope_label, scope_hash env.packages b.secret scope)
        ∷ [] in
      if pool == []
      then managed
      else managed ++ ((pool_hash_label, pool_hash env.packages b.secret pool) ∷ [])

  -- Where a page starts: its time, and the continuation, empty for the first.
  unfoldable pub page_start : Scope → ListRequest → World → Result Error (ℤ × Bytes)
  page_start scope request w =
      if request.cursor == []
      then ok (pos (env.now w), [])
      else elim (decode_cursor env.packages b.secret request.cursor scope request.pool
          request.limit) [
            | err e ↦ err e
            | ok payload ↦ ok (payload.as_of_unix_nano, payload.continue)
          ]

  -- The page of some records, with a cursor if the list goes on.
  unfoldable pub make_page :
      Scope → ListRequest → ℤ → Bytes → List Record → Node World → Page × Node World
  make_page scope request as_of continue leases node =
      let drawn = env.nonce node.world in
      if continue == [] then (record { leases = leases; next_cursor = none }, node) else (
        record {
          leases = leases;
          next_cursor = some (
              encode_cursor env.packages b.secret drawn.0 scope request.pool request.limit as_of
                continue);
        },
        record node { world = drawn.1 },
      )

  -- `List`, from the page's start on.
  unfoldable pub list_from : Scope → ListRequest → ℤ × Bytes → Operation World Page
  list_from scope request (as_of, continuation) node =
      elim (env.list_claims node.world (list_selector scope request.pool) (magnitude request.limit)
        continuation) [
          | err e ↦ (err (list_failure continuation e), node)
          | ok claims ↦ elim (unexpired as_of claims.items) [
            | err e ↦ (err e, node)
            | ok leases ↦
                let made = make_page scope request as_of claims.continue leases node in
                (ok made.0, made.1)
          ]
        ]

  -- `List`
  unfoldable pub list_leases : Scope → ListRequest → Operation World Page
  list_leases scope request node =
      if ltb_ℤ request.limit (pos 1) || ltb_ℤ max_list_limit request.limit
      then (err invalid_limit, node)
      else if not (request.pool == []) && not (exists_pool (lookup request.pool b.pools))
      then (err unknown_pool, node)
      else after_call (page_start scope request node.world, node) (list_from scope request)

  -- The loop of `ListActiveLeases`.
  unfoldable pub active_leases : ℕ → List Claim → Result Error (List ActiveLease)
  active_leases now [] = ok []
  active_leases now (claim ∷ claims) =
      let rest = active_leases now claims in
      if claim.deleting then rest else elim (record_from_claim env b claim) [
        | err e ↦ err e
        | ok lease ↦
            if ltb now lease.expires_at
            then with_record
                (record {
                  lease = lease;
                  hash_of_scope = label scope_label claim;
                  hash_of_consumer = label consumer_label claim;
                })
                rest
            else rest
      ]

  abbrev pub managed_selector : Dict Bytes Bytes
  managed_selector = (managed_label, bytes "true") ∷ []

  -- `ListActiveLeases`, and `Recover`, which calls it.
  unfoldable pub list_active_leases : Operation World (List ActiveLease)
  list_active_leases node = (
    elim (env.list_claims node.world managed_selector 0 []) [
      | err e ↦ err (other "list")
      | ok list ↦ active_leases (env.now node.world) list.items
    ],
    node,
  )

  -- The loop of `SweepExpired`.
  unfoldable pub sweep : List Claim → Operation World (Unit {0})
  sweep [] node = (ok tt, node)
  sweep (claim ∷ claims) node =
      let skipped = sweep claims node in
      if claim.deleting then skipped else elim (record_from_claim env b claim) [
        | err e ↦ (err e, node)
        | ok lease ↦
            let removed =
              (stop_transfers env b lease.id >>= λ u.
              delete_claim env b lease.id >>= λ v. sweep claims)
                node in
            if ltb (env.now node.world) lease.expires_at then skipped else removed
      ]

  -- `SweepExpired`
  unfoldable pub sweep_expired : Operation World (Unit {0})
  sweep_expired node =
      after_call (passed (env.list_claims node.world managed_selector 0 []), node)
        (λ list. sweep list.items)

  -- The replicas of a warm pool.
  unfoldable pub warm_pool_ready : WarmPool → Result Error (Unit {0})
  warm_pool_ready warm_pool = elim warm_pool.ready_replicas [
    | none ↦ err (other "WarmPool does not report ready replicas")
    | some ready ↦ elim warm_pool.replicas [
      | none ↦ err (other "WarmPool has no desired replicas")
      | some desired ↦
          if ltb_ℤ desired (pos 1)
          then err (other "WarmPool has no desired replicas")
          else if ltb_ℤ ready desired
          then err (other "WarmPool is not fully ready")
          else ok tt
    ]
  ]

  -- The loop of `Ready`, over the pools.
  unfoldable pub pools_ready : Dict Bytes Pool → World → Result Error (Unit {0})
  pools_ready [] w = ok tt
  pools_ready ((name, pool) ∷ pools) w =
      let rest = pools_ready pools w in
      elim (env.get_warm_pool w pool.warm_pool_name) [
        | err e ↦ err (other "get WarmPool")
        | ok warm_pool ↦ elim (warm_pool_ready warm_pool) [ err e ↦ err e | ok u ↦ rest ]
      ]

  -- `Ready`
  unfoldable pub ready : World → Result Error (Unit {0})
  ready w = elim (env.list_claims w [] 1 []) [
    | err e ↦ err (other "list SandboxClaims")
    | ok claims ↦ elim (env.list_sandboxes w) [
      | err e ↦ err (other "list Sandboxes")
      | ok u ↦ pools_ready b.pools w
    ]
  ]
