-- ===== src/ControlPlane/Claims/Store.antt =====
-- apps/control-plane-go/internal/backend/kubernetes: what the backend relies on of the API server, as
-- long as it answers: claims are kept by their names, and a deleted one is gone or marked.
use agent_sandbox_platform.Base.{
  Option, none, some, Bytes, ◌==◌, bytes_eq, ◌≡◌, refl, if◌then◌else◌,
}
use agent_sandbox_platform.Base.Dict.{Dict, lookup}
use agent_sandbox_platform.Base.Result.{Result, ok, err}
use agent_sandbox_platform.ControlPlane.Cluster.{Claim, ApiError, absent, failed, Environment, Node}
use agent_sandbox_platform.ControlPlane.Claims.{Backend, delete_claim, forgiving}

-- What of a claim does not change while it lives: controllers set its status alone.
pub record Identity : Type 0 where
  pub name : Bytes
  pub labels : Dict Bytes Bytes
  pub annotations : Dict Bytes Bytes

abbrev pub identity : Claim → Identity
identity claim = record {
  name = claim.name;
  labels = claim.labels;
  annotations = claim.annotations;
}

-- A claim that is there and is not being deleted.
abbrev pub living : Option Claim → Option Identity
living none = none
living (some claim) = if claim.deleting then none else some (identity claim)

abbrev pub read_of : Option Claim → Result ApiError Claim
read_of none = err absent
read_of (some claim) = ok claim

-- Creating answers that there is such a claim, or succeeds.
abbrev pub created_of : Option Claim → Result ApiError (Unit {0})
created_of none = ok tt
created_of (some claim) = err (failed "already exists")

abbrev pub kept_or_created : Option Claim → Claim → Option Identity
kept_or_created none new = living (some new)
kept_or_created (some claim) new = living (some claim)

-- Deleting answers that there is no such claim, or succeeds.
abbrev pub removed_of : Option Claim → Result ApiError (Unit {0})
removed_of none = err absent
removed_of (some claim) = ok tt

module _ {World : Type 0} (env : Environment World) (claims : World → Dict Bytes Claim) where
  pub record IsStore : Type 0 where
    pub get : (w : World) (id : Bytes) → env.get_claim w id ≡ read_of (lookup id (claims w))
    pub create :
        (c : Claim) (w : World) → (env.create_claim c w).0 ≡ created_of (lookup c.name (claims w))
    pub create_keeps :
        (c : Claim) (w : World) (j : Bytes)
        → living (lookup j (claims ((env.create_claim c w).1))) ≡ (
            if j == c.name
            then kept_or_created (lookup j (claims w)) c
            else living (lookup j (claims w)))
    pub remove :
        (id : Bytes) (w : World) → (env.remove_claim id w).0 ≡ removed_of (lookup id (claims w))
    pub remove_keeps :
        (id : Bytes) (w : World) (j : Bytes)
        → living (lookup j (claims ((env.remove_claim id w).1)))
          ≡ (if j == id then none else living (lookup j (claims w)))
    pub random_keeps :
        (w : World) (j : Bytes) → lookup j (claims ((env.random w).1)) ≡ lookup j (claims w)
    pub poll_keeps :
        (w : World) (j : Bytes)
        → living (lookup j (claims (env.poll w))) ≡ living (lookup j (claims w))
    pub waiting_keeps :
        (w : World) (j : Bytes)
        → living (lookup j (claims ((env.waiting w).1))) ≡ living (lookup j (claims w))

module _ {World : Type 0} (env : Environment World) (b : Backend)
    (claims : World → Dict Bytes Claim) (store : IsStore env claims) where
  pub living-delete_claim :
      (id : Bytes) (node : Node World) (j : Bytes)
      → living (lookup j (claims ((delete_claim env b id node).1.world)))
        ≡ (if j == id then none else living (lookup j (claims node.world)))
  unfolding delete_claim
  living-delete_claim id node j = store.remove_keeps id node.world j

  -- While the API server answers, a deletion succeeds, also of a claim that is not there.
  pub delete_claim-ok : (id : Bytes) (node : Node World) → (delete_claim env b id node).0 ≡ ok tt
  unfolding delete_claim
  delete_claim-ok id node = rw (store.remove id node.world) (gone (lookup id (claims node.world)))
    where
      gone : (found : Option Claim) → forgiving env b (removed_of found) ≡ ok tt
      gone none = refl
      gone (some claim) = refl
