-- ===== src/Base/Dict.antt =====
-- Go maps as association lists, with the laws of each operation in `if` form. The order of the
-- entries stands for the order in which a `range` loop visits them, which Go leaves open.
pub mod Weight
use agent_sandbox_platform.Base.Equality.{Eq, ◌==◌}
use agent_sandbox_platform.Base.Tests.{if◌then◌else◌}
use mathlib.Core.Path.{◌≡◌, refl}
use mathlib.Core.Bool.{Bool}
use mathlib.Core.Option.{Option, none, some}
use mathlib.Core.List.{List, [], ◌∷◌}
use native.Mathlib.Omega.{arith}

abbrev pub Dict {ℓ κ} : Type ℓ → Type κ → Type (ℓ ⊔ κ)
Dict K V = List (K × V)

-- What is left of a value when those that pass the test are deleted.
abbrev pub keep_unless {κ} : {V : Type κ} → (V → Bool) → Option V → Option V
keep_unless p none = none
keep_unless p (some v) = if p v then none else some v

module _ {ℓ κ} {K : Type ℓ} {V : Type κ} ⦃e : Eq K⦄ where
  unfoldable pub lookup : K → Dict K V → Option V
  lookup k [] = none
  lookup k ((j, v) ∷ d) = if k == j then some v else lookup k d

  -- `d[k] = v`
  unfoldable pub insert : K → V → Dict K V → Dict K V
  insert k v [] = (k, v) ∷ []
  insert k v ((j, w) ∷ d) = if k == j then (k, v) ∷ d else (j, w) ∷ insert k v d

  -- `delete(d, k)`
  unfoldable pub erase : K → Dict K V → Dict K V
  erase k [] = []
  erase k ((j, w) ∷ d) = let rest = erase k d in if k == j then rest else (j, w) ∷ rest

  -- `for k, v := range d { if p(v) { delete(d, k) } }`
  unfoldable pub erase_where : (V → Bool) → Dict K V → Dict K V
  unfolding erase
  erase_where p [] = []
  erase_where p ((j, w) ∷ d) =
      let rest = erase_where p d in if p w then erase j rest else (j, w) ∷ rest

  pub lookup-nil : (k : K) → lookup k [] ≡ none
  unfolding lookup
  lookup-nil k = refl

  pub lookup-insert :
      (j k : K) (v : V) (d : Dict K V)
      → lookup j (insert k v d) ≡ (if j == k then some v else lookup j d)
  unfolding insert lookup
  lookup-insert j k v [] = refl
  lookup-insert j k v (_ ∷ d) = ground (arith, lookup-insert j k v d)

  pub lookup-erase :
      (j k : K) (d : Dict K V) → lookup j (erase k d) ≡ (if j == k then none else lookup j d)
  unfolding erase lookup
  lookup-erase j k [] = ground arith
  lookup-erase j k (_ ∷ d) = ground (arith, lookup-erase j k d)

  pub lookup-erase_where :
      (j : K) (p : V → Bool) (d : Dict K V)
      → lookup j (erase_where p d) ≡ keep_unless p (lookup j d)
  unfolding erase_where lookup
  lookup-erase_where j p [] = refl
  lookup-erase_where j p ((k, w) ∷ d) =
      ground (arith, lookup-erase_where j p d, lookup-erase j k (erase_where p d))

  pub ruleset dict_laws = (lookup-nil, lookup-insert, lookup-erase, lookup-erase_where)
