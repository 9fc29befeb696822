-- ===== src/Codec/PosixPath/Laws.antt =====
-- A cleaned rooted path has plain components only, and cleaning it again changes nothing.
use mathlib.Core.List.{reverse_aux}
use agent_sandbox_platform.Base.{
  Bool, true, List, [], ◌∷◌, Bytes, bytes_eq, ◌≡◌, ◌≢◌, refl, ◌∙◌, ap, All, arith,
}
use agent_sandbox_platform.Base.Text.{bytes, has_prefix, split, join}
use agent_sandbox_platform.Base.Text.Splitting.{Lacks, split-Lacks, split-join}
use agent_sandbox_platform.Codec.PosixPath.{climb, advance, resolve, absolute, clean}

-- A component that is a name: not empty, neither `.` nor `..`, and without a slash.
pub record IsPlain (part : Bytes) : Type 0 where
  pub filled : part ≢ []
  pub no_dot : part ≢ bytes "."
  pub no_dots : part ≢ bytes ".."
  pub no_slash : Lacks b'/' part

advance-IsPlain :
    (stack : List Bytes) (part : Bytes)
    → All IsPlain stack
    → Lacks b'/' part
    → All IsPlain (advance true stack part)
unfolding advance climb
advance-IsPlain [] part h n = ground arith
advance-IsPlain (top ∷ stack) part h n = ground arith

All-reverse_aux :
    (stack parts : List Bytes)
    → All IsPlain stack
    → All IsPlain parts
    → All IsPlain (reverse_aux stack parts)
All-reverse_aux [] parts h k = k
All-reverse_aux (top ∷ stack) parts h k = All-reverse_aux stack (top ∷ parts) h.1 (h.0, k)

resolve-IsPlain :
    (stack parts : List Bytes)
    → All IsPlain stack
    → All (Lacks b'/') parts
    → All IsPlain (resolve true stack parts)
unfolding resolve
resolve-IsPlain stack [] h k = All-reverse_aux stack [] h tt
resolve-IsPlain stack (part ∷ parts) h k =
    resolve-IsPlain (advance true stack part) parts (advance-IsPlain stack part h k.0) k.1

advance_plain :
    (rooted : Bool) (stack : List Bytes) (part : Bytes)
    → IsPlain part
    → advance rooted stack part ≡ part ∷ stack
unfolding advance
advance_plain rooted stack part p = ground arith

resolve_plain :
    (stack parts : List Bytes)
    → All IsPlain parts
    → resolve true stack parts ≡ reverse_aux stack parts
unfolding resolve
resolve_plain stack [] h = refl
resolve_plain stack (part ∷ parts) h =
    rw (advance_plain true stack part h.0) (resolve_plain (part ∷ stack) parts h.1)

-- A rooted path cleans to a path of names from the root.
pub clean-absolute :
    (path : Bytes)
    → has_prefix (bytes "/") path ≡ true
    → (names : List Bytes) × (clean path ≡ absolute names) × All IsPlain names
unfolding clean
clean-absolute path h =
    (resolve true [] (split b'/' path), rw h, resolve-IsPlain [] _ tt (split-Lacks b'/' path))

pub plain_parts_lem : (names : List Bytes) → All IsPlain names → All (Lacks b'/') names
plain_parts_lem [] h = tt
plain_parts_lem (name ∷ names) h = (h.0.no_slash, plain_parts_lem names h.1)

split-slash : (s : Bytes) → split b'/' (b'/' ∷ s) ≡ [] ∷ split b'/' s
unfolding split
split-slash s = refl

resolve-empty_first : (parts : List Bytes) → resolve true [] ([] ∷ parts) ≡ resolve true [] parts
unfolding resolve advance bytes_eq
resolve-empty_first parts = refl

-- Such a path is clean.
pub clean-of_plain :
    (names : List Bytes) → All IsPlain names → clean (absolute names) ≡ absolute names
unfolding clean absolute has_prefix
clean-of_plain [] h = unfold split join resolve advance bytes_eq in refl
clean-of_plain (name ∷ names) h =
    let rest = join (b'/' ∷ []) (name ∷ names) in
    let parts = split-join b'/' name names (plain_parts_lem (name ∷ names) h) in
    ap absolute (
      ap (resolve true []) (split-slash rest ∙ ap (◌∷◌ []) parts)
      ∙ resolve-empty_first (name ∷ names)
      ∙ resolve_plain [] (name ∷ names) h)
