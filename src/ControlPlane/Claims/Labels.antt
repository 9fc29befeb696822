-- ===== src/ControlPlane/Claims/Labels.antt =====
-- apps/control-plane-go/internal/backend/kubernetes: what the backend relies on of a list of claims by
-- their labels.
use agent_sandbox_platform.Base.{
  ℕ, Bool, true, false, ◌&&◌, Option, none, some, [], ◌∷◌, Bytes, ◌==◌, bytes_eq, ◌≡◌, Occurs,
  arith,
}
use agent_sandbox_platform.Base.Dict.{Dict, lookup}
use agent_sandbox_platform.Base.Result.{ok}
use agent_sandbox_platform.ControlPlane.Cluster.{Claim, ClaimList, Environment}

abbrev pub has_value : Bytes → Option Bytes → Bool
has_value value none = false
has_value value (some found) = found == value

-- A claim has all the labels of a selector, with their values.
unfoldable pub carries : Dict Bytes Bytes → Claim → Bool
carries [] claim = true
carries ((key, value) ∷ selector) claim =
    has_value value (lookup key claim.labels) && carries selector claim

pub has_value-some :
    (value : Bytes) (found : Option Bytes) → has_value value found ≡ true → found ≡ some value
has_value-some value none h = absurd (ground (arith, h))
has_value-some value (some found) h = ground (arith, h)

-- How the API server lists claims in a world: each has the labels that were selected; a list from the
-- start holds claims that are there, and one that is whole holds all of those with the labels; and a
-- list without a limit is whole.
pub record IsListing {World : Type 0} (env : Environment World) (claims : World → Dict Bytes Claim)
    (w : World) : Type 0 where
  pub selected :
      (selector : Dict Bytes Bytes) (limit : ℕ) (continuation : Bytes) (listed : ClaimList)
      → env.list_claims w selector limit continuation ≡ ok listed
      → (claim : Claim) → Occurs claim listed.items
      → carries selector claim ≡ true
  pub stored :
      (selector : Dict Bytes Bytes) (limit : ℕ) (listed : ClaimList)
      → env.list_claims w selector limit [] ≡ ok listed
      → (claim : Claim) → Occurs claim listed.items
      → lookup claim.name (claims w) ≡ some claim
  pub whole :
      (selector : Dict Bytes Bytes) (limit : ℕ) (listed : ClaimList)
      → env.list_claims w selector limit [] ≡ ok listed
      → listed.continue ≡ []
      → (claim : Claim) → lookup claim.name (claims w) ≡ some claim
      → carries selector claim ≡ true
      → Occurs claim listed.items
  pub unlimited :
      (selector : Dict Bytes Bytes) (listed : ClaimList)
      → env.list_claims w selector 0 [] ≡ ok listed
      → listed.continue ≡ []
