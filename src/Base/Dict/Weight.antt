-- ===== src/Base/Dict/Weight.antt =====
-- How much the entries of a dictionary weigh together, when each key is bound once.
use agent_sandbox_platform.Base.{
  ℕ, ◌+◌, ◌≡◌, refl, Option, none, some, [], ◌∷◌, Eq, ◌==◌, arith, inl, inr, Bool-cases,
}
use agent_sandbox_platform.Base.Dict.{Dict, lookup, insert, erase, lookup-insert, lookup-erase}

-- The weight of what a key is bound to.
abbrev pub weight_of {κ} : {V : Type κ} → (V → ℕ) → Option V → ℕ
weight_of w none = 0
weight_of w (some v) = w v

module _ {ℓ κ} {K : Type ℓ} {V : Type κ} ⦃e : Eq K⦄ where
  abbrev pub weigh : (V → ℕ) → Dict K V → ℕ
  weigh w [] = 0
  weigh w ((k, v) ∷ d) = w v + weigh w d

  abbrev pub IsDistinct : Dict K V → Type κ
  IsDistinct [] = Unit
  IsDistinct ((k, v) ∷ d) = lookup k d ≡ none × IsDistinct d

  pub insert-IsDistinct : (k : K) (v : V) (d : Dict K V) → IsDistinct d → IsDistinct (insert k v d)
  unfolding insert lookup
  insert-IsDistinct k v [] h = (refl, tt)
  insert-IsDistinct k v ((j, u) ∷ d) h = elim (Bool-cases (k == j)) [
    | inl p ↦ rw p (ground (arith, h.0), h.1)
    | inr n ↦ rw n (ground (arith, h.0, lookup-insert j k v d), insert-IsDistinct k v d h.1)
  ]

  pub erase-IsDistinct : (k : K) (d : Dict K V) → IsDistinct d → IsDistinct (erase k d)
  unfolding erase
  erase-IsDistinct k [] h = tt
  erase-IsDistinct k ((j, u) ∷ d) h = elim (Bool-cases (k == j)) [
    | inl p ↦ rw p (erase-IsDistinct k d h.1)
    | inr n ↦ rw n (ground (arith, h.0, lookup-erase j k d), erase-IsDistinct k d h.1)
  ]

  pub erase_absent : (k : K) (d : Dict K V) → lookup k d ≡ none → erase k d ≡ d
  unfolding erase lookup
  erase_absent k [] h = refl
  erase_absent k ((j, u) ∷ d) h = ground (arith, h, erase_absent k d)

  pub weigh-insert :
      (w : V → ℕ) (k : K) (v : V) (d : Dict K V)
      → weigh w (insert k v d) + weight_of w (lookup k d) ≡ weigh w d + w v
  unfolding insert lookup
  weigh-insert w k v [] = omega arith
  weigh-insert w k v ((j, u) ∷ d) = ground (arith, weigh-insert w k v d)

  pub weigh-erase :
      (w : V → ℕ) (k : K) (d : Dict K V)
      → IsDistinct d
      → weigh w (erase k d) + weight_of w (lookup k d) ≡ weigh w d
  unfolding erase lookup
  weigh-erase w k [] h = omega arith
  weigh-erase w k ((j, u) ∷ d) h = ground (arith, weigh-erase w k d h.1, h.0, erase_absent k d)
