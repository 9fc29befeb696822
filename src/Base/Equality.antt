-- ===== src/Base/Equality.antt =====
-- Equality tests, for every type whose equality can be decided. The decisions stay shut in proofs,
-- where a split on `a == b` yields the equation or its negation.
use Prim.Native.Nat.{ℕ}
use Prim.Native.String.{String}
use mathlib.Core.Path.{◌≡◌, refl}
use mathlib.Core.Logic.{ite, dite}
use mathlib.Core.Bool.{Bool, true, false, ◌||◌, Bool-discrete}
use mathlib.Core.List.{List, [], ◌∷◌}
use native.Mathlib.Decide.{ℕ_discrete}
use native.Mathlib.Omega.{arith}
use text.Mathlib.Text
use text.Mathlib.TextEquality.{eq_iff}

pub record Eq {ℓ} (A : Type ℓ) : Type ℓ where
  pub dec : Discrete A

module _ {ℓ} {A : Type ℓ} ⦃e : Eq A⦄ where
  infix 50 ◌==◌
  abbrev pub ◌==◌ : A → A → Bool
  a == b = ite (e.dec a b) true false

  abbrev pub contains : List A → A → Bool
  contains [] a = false
  contains (x ∷ xs) a = a == x || contains xs a

  pub ==_refl : (a : A) → (a == a) ≡ true
  ==_refl a = ground arith

-- A text of the program: a sequence of bytes.
abbrev pub Bytes : Type 0
Bytes = List ℕ

nil-ne-cons : (y : ℕ) (ys : Bytes) → ¬ ([] ≡ y ∷ ys)
nil-ne-cons y ys e = ground arith

cons-ne-nil : (x : ℕ) (xs : Bytes) → ¬ (x ∷ xs ≡ [])
cons-ne-nil x xs e = ground arith

cons-eq : {x y : ℕ} {xs ys : Bytes} → x ≡ y → xs ≡ ys → x ∷ xs ≡ y ∷ ys
cons-eq p q = cc

head-ne : {x y : ℕ} (xs ys : Bytes) → ¬ (x ≡ y) → ¬ (x ∷ xs ≡ y ∷ ys)
head-ne xs ys h e = h (ground arith)

tail-ne : (x y : ℕ) {xs ys : Bytes} → ¬ (xs ≡ ys) → ¬ (x ∷ xs ≡ y ∷ ys)
tail-ne x y h e = h (ground arith)

unfoldable pub Bytes-discrete : Discrete Bytes
unfolding nil-ne-cons cons-ne-nil cons-eq head-ne tail-ne
Bytes-discrete [] [] = yes refl
Bytes-discrete [] (y ∷ ys) = no (nil-ne-cons y ys)
Bytes-discrete (x ∷ xs) [] = no (cons-ne-nil x xs)
Bytes-discrete (x ∷ xs) (y ∷ ys) = elim (ℕ_discrete x y) [
  | yes p ↦ elim (Bytes-discrete xs ys) [ yes q ↦ yes (cons-eq p q) | no q ↦ no (tail-ne x y q) ]
  | no p ↦ no (head-ne xs ys p)
]

instance unfoldable pub bytes_eq : Eq Bytes
unfolding Bytes-discrete ℕ_discrete
bytes_eq = record { dec = Bytes-discrete }

instance unfoldable pub nat_eq : Eq ℕ
unfolding ℕ_discrete
nat_eq = record { dec = ℕ_discrete }

instance unfoldable pub string_eq : Eq String
string_eq = record {
  dec = λ s t.
      dite (Bool-discrete (Text.◌==◌ s t) true) (λ same. yes ((eq_iff s t).0 same))
        (λ differ. no (λ p. differ ((eq_iff s t).1 p)));
}
