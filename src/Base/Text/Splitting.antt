-- ===== src/Base/Text/Splitting.antt =====
-- `Split` and `Join` at one byte undo each other.
use mathlib.Core.Path.{◌≡◌, refl, ap, ◌∙◌}
use mathlib.Core.Logic.{inl, inr}
use mathlib.Core.Bool.{true, false}
use mathlib.Core.List.{List, [], ◌∷◌, ◌++◌}
use native.Mathlib.Omega.{arith}
use Prim.Native.Nat.{ℕ}
use agent_sandbox_platform.Base.Equality.{Bytes}
use agent_sandbox_platform.Base.Lists.{any, All}
use agent_sandbox_platform.Base.Tests.{eqb, Bool-cases}
use agent_sandbox_platform.Base.Text.{has_prefix, split, cons_first, join}

join-cons_first :
    (sep : ℕ) (c : ℕ) (parts : List Bytes)
    → join (sep ∷ []) (cons_first c parts) ≡ c ∷ join (sep ∷ []) parts
unfolding join cons_first
join-cons_first sep c [] = refl
join-cons_first sep c (part ∷ []) = refl
join-cons_first sep c (part ∷ next ∷ parts) = refl

join-empty_first :
    (sep : ℕ) (s : Bytes) → join (sep ∷ []) ([] ∷ split sep s) ≡ sep ∷ join (sep ∷ []) (split sep s)
unfolding split join cons_first
join-empty_first sep [] = refl
join-empty_first sep (c ∷ s) = ground arith

-- Joining what was split gives the text back.
pub join-split : (sep : ℕ) (s : Bytes) → join (sep ∷ []) (split sep s) ≡ s
unfolding split
join-split sep [] = unfold join in refl
join-split sep (c ∷ s) =
    ground (arith, join-split sep s, join-empty_first sep s, join-cons_first sep c (split sep s))

-- The byte does not stand in the text.
abbrev pub Lacks : ℕ → Bytes → Type 0
Lacks sep s = any (λ c. eqb c sep) s ≡ false

cons_first-Lacks :
    (sep c : ℕ) (parts : List Bytes)
    → eqb c sep ≡ false
    → All (Lacks sep) parts
    → All (Lacks sep) (cons_first c parts)
unfolding cons_first
cons_first-Lacks sep c [] h a = (ground arith, tt)
cons_first-Lacks sep c (part ∷ parts) h a = (ground arith, a.1)

-- No part of a split holds the byte.
pub split-Lacks : (sep : ℕ) (s : Bytes) → All (Lacks sep) (split sep s)
unfolding split
split-Lacks sep [] = (refl, tt)
split-Lacks sep (c ∷ s) =
    let parts = split-Lacks sep s in
    let extended = cons_first-Lacks sep c (split sep s) in
    elim (Bool-cases (eqb c sep)) [
      | inl here ↦ rw here (refl, parts)
      | inr other ↦ rw other (extended other parts)
    ]

pub split-part : (sep : ℕ) (p : Bytes) → Lacks sep p → split sep p ≡ p ∷ []
unfolding split cons_first
split-part sep [] h = refl
split-part sep (c ∷ p) h = ground (arith, split-part sep p)

pub split-append :
    (sep : ℕ) (p s : Bytes) → Lacks sep p → split sep (p ++ sep ∷ s) ≡ p ∷ split sep s
unfolding split cons_first
split-append sep [] s h = ground arith
split-append sep (c ∷ p) s h = ground (arith, split-append sep p s)

-- Splitting what was joined gives the parts back.
pub split-join :
    (sep : ℕ) (p : Bytes) (ps : List Bytes)
    → All (Lacks sep) (p ∷ ps)
    → split sep (join (sep ∷ []) (p ∷ ps)) ≡ p ∷ ps
unfolding join
split-join sep p [] h = split-part sep p h.0
split-join sep p (q ∷ ps) h =
    split-append sep p (join (sep ∷ []) (q ∷ ps)) h.0 ∙ ap (◌∷◌ p) (split-join sep q ps h.1)

-- What has a prefix is the prefix and a rest.
pub has_prefix-rest : (p s : Bytes) → has_prefix p s ≡ true → (rest : Bytes) × (s ≡ p ++ rest)
unfolding has_prefix
has_prefix-rest [] s h = (s, refl)
has_prefix-rest (c ∷ p) [] h = ground arith
has_prefix-rest (c ∷ p) (d ∷ s) h =
    let (rest, e) = has_prefix-rest p s (ground arith) in (rest, ground arith)
