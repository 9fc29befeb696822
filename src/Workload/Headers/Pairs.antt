-- ===== src/Workload/Headers/Pairs.antt =====
-- apps/workload-router/internal/router/router.go: which pairs of a cookie header the router forwards,
-- by how they are written.
use agent_sandbox_platform.Base.{
  ℕ, Bool, true, false, not, ◌&&◌, Option, none, some, [], ◌∷◌, ◌++◌, Bytes, ◌==◌, bytes_eq, eqb,
  ◌≡◌, refl, arith, any, Bool-cases, inl, inr, Option-cases,
}
use agent_sandbox_platform.Base.Text.{bytes, has_prefix}
use agent_sandbox_platform.Base.Text.Splitting.{Lacks}
use agent_sandbox_platform.Workload.Headers.{before, is_other_cookie, session_cookie_name}

abbrev is_name : Bytes → Option Bytes → Bool
is_name p none = false
is_name p (some name) = name == p

abbrev is_found : Option Bytes → Bool
is_found none = false
is_found (some name) = true

-- What stands before a byte is a name exactly where the text starts with the name and the byte.
is_name-before :
    (sep : ℕ) (p s : Bytes)
    → Lacks sep p
    → is_name p (before sep s) ≡ has_prefix (p ++ (sep ∷ [])) s
unfolding before has_prefix
is_name-before sep [] [] h = refl
is_name-before sep (c ∷ p) [] h = refl
is_name-before sep [] (d ∷ s) h = elim (Bool-cases (eqb d sep)) [
  | inl e ↦ ground (arith, e)
  | inr e ↦ elim (Option-cases (before sep s)) [
    | inl n ↦ ground (arith, e, n)
    | inr (name, n) ↦ ground (arith, e, n)
  ]
]
is_name-before sep (c ∷ p) (d ∷ s) h =
    let rest = is_name-before sep p s (ground (arith, h)) in
    elim (Bool-cases (eqb d sep)) [
      | inl e ↦ ground (arith, e, h)
      | inr e ↦ elim (Option-cases (before sep s)) [
        | inl n ↦ ground (arith, e, n, rest)
        | inr (name, n) ↦ ground (arith, e, n, rest)
      ]
    ]

is_found-before : (sep : ℕ) (s : Bytes) → is_found (before sep s) ≡ any (λ c. eqb c sep) s
unfolding before
is_found-before sep [] = refl
is_found-before sep (d ∷ s) = elim (Option-cases (before sep s)) [
  | inl n ↦ ground (arith, n, is_found-before sep s)
  | inr (name, n) ↦ ground (arith, n, is_found-before sep s)
]

-- A pair has a value, and is not the session's.
pub is_forwardable : Bytes → Bool
is_forwardable pair =
    any (λ c. eqb c b'=') pair && not (has_prefix (bytes "__Host-asp_session=") pair)

pub is_other_cookie-is_forwardable : (pair : Bytes) → is_other_cookie pair ≡ is_forwardable pair
unfolding is_other_cookie is_forwardable
is_other_cookie-is_forwardable pair = elim (Option-cases (before b'=' pair)) [
  | inl n ↦
      ground
        (arith, n, is_found-before b'=' pair, is_name-before b'=' session_cookie_name pair refl)
  | inr (name, n) ↦
      ground
        (arith, n, is_found-before b'=' pair, is_name-before b'=' session_cookie_name pair refl)
]

-- What stands before a byte, with what follows it.
pub before-some :
    (sep : ℕ) (s name : Bytes)
    → before sep s ≡ some name
    → (rest : Bytes) × (s ≡ name ++ sep ∷ rest) × Lacks sep name
unfolding before
before-some sep [] name h = absurd (ground (arith, h))
before-some sep (d ∷ s) name h = elim (Bool-cases (eqb d sep)) [
  | inl e ↦ (s, ground (arith, h, e), ground (arith, h, e))
  | inr e ↦ elim (Option-cases (before sep s)) [
    | inl n ↦ absurd (ground (arith, h, e, n))
    | inr (front, n) ↦
        let (rest, split, lacks) = before-some sep s front n in
        (rest, ground (arith, h, e, n, split), ground (arith, h, e, n, lacks))
  ]
]

pub before-append :
    (sep : ℕ) (name rest : Bytes) → Lacks sep name → before sep (name ++ sep ∷ rest) ≡ some name
unfolding before
before-append sep [] rest h = ground arith
before-append sep (c ∷ name) rest h =
    ground (arith, h, before-append sep name rest (ground (arith, h)))
