-- ===== src/Base/Text.antt =====
-- Go strings as bytes, with the functions of package `strings` that the program uses.
pub mod Splitting
pub mod Trimming
use Prim.Native.Nat.{ℕ, zero, suc}
use Prim.Native.Char.{code}
use Prim.Native.String.{String}
use mathlib.Core.Path.{◌≡◌, refl}
use mathlib.Core.Bool.{Bool, true, false, ◌&&◌, ◌||◌}
use mathlib.Core.List.{List, [], ◌∷◌, ◌++◌, reverse}
use agent_sandbox_platform.Base.Equality.{Bytes}
use agent_sandbox_platform.Base.Tests.{leb, eqb, if◌then◌else◌}
use agent_sandbox_platform.Base.Lists.{length, drop, any}

-- The bytes of a literal, which is ASCII everywhere in the program.
abbrev pub bytes : String → Bytes
bytes String.[] = []
bytes (String.◌∷◌ c s) = code c ∷ bytes s

-- `strings.HasPrefix(s, prefix)`, the prefix first.
unfoldable pub has_prefix : Bytes → Bytes → Bool
has_prefix [] s = true
has_prefix (p ∷ ps) [] = false
has_prefix (p ∷ ps) (c ∷ s) = eqb p c && has_prefix ps s

unfoldable pub has_suffix : Bytes → Bytes → Bool
unfolding has_prefix
has_suffix suffix s = has_prefix (reverse suffix) (reverse s)

-- `strings.ContainsAny(s, chars)` for ASCII `chars`.
unfoldable pub contains_any : Bytes → Bytes → Bool
contains_any s chars = any (λ c. any (eqb c) chars) s

ascii_space : ℕ → Bool
ascii_space c = (leb 9 c && leb c 13) || eqb c 32

-- The bytes of the Unicode space that a text starts with: 0 when it starts with none.
space_width : Bytes → ℕ
unfolding ascii_space
space_width [] = 0
space_width (a ∷ []) = if ascii_space a then 1 else 0
space_width (a ∷ b ∷ []) =
    if ascii_space a then 1 else if eqb a 0xc2 && (eqb b 0x85 || eqb b 0xa0) then 2 else 0
space_width (a ∷ b ∷ c ∷ s) =
    if ascii_space a
    then 1
    else if eqb a 0xc2 && (eqb b 0x85 || eqb b 0xa0)
    then 2
    else if eqb a 0xe1 && eqb b 0x9a && eqb c 0x80
    then 3
    else if eqb a 0xe2
        && eqb b 0x80
        && ((leb 0x80 c && leb c 0x8a) || eqb c 0xa8 || eqb c 0xa9 || eqb c 0xaf)
    then 3
    else if eqb a 0xe2 && eqb b 0x81 && eqb c 0x9f
    then 3
    else if eqb a 0xe3 && eqb b 0x80 && eqb c 0x80
    then 3
    else 0

-- The same of a text given backwards: the space that it ends with.
space_width_back : Bytes → ℕ
unfolding space_width
space_width_back [] = 0
space_width_back (c ∷ []) = space_width (c ∷ [])
space_width_back (c ∷ b ∷ []) = if ascii_space c then 1 else space_width (b ∷ c ∷ [])
space_width_back (c ∷ b ∷ a ∷ s) =
    if ascii_space c
    then 1
    else if eqb (space_width (b ∷ c ∷ [])) 2
    then 2
    else if eqb (space_width (a ∷ b ∷ c ∷ [])) 3
    then 3
    else 0

-- Each round drops a byte at least, so the length is enough fuel.
drop_spaces : (Bytes → ℕ) → ℕ → Bytes → Bytes
drop_spaces width zero s = s
drop_spaces width (suc fuel) s =
    let rest = drop_spaces width fuel (drop (width s) s) in if eqb (width s) 0 then s else rest

-- `strings.TrimSpace`
unfoldable pub trim_space : Bytes → Bytes
unfolding space_width space_width_back drop_spaces
trim_space s =
    let left = drop_spaces space_width (length s) s in
    reverse (drop_spaces space_width_back (length left) (reverse left))

-- `strings.Split` at one byte: never empty.
unfoldable pub cons_first : ℕ → List Bytes → List Bytes
cons_first c [] = (c ∷ []) ∷ []
cons_first c (part ∷ parts) = (c ∷ part) ∷ parts

unfoldable pub split : ℕ → Bytes → List Bytes
unfolding cons_first
split sep [] = [] ∷ []
split sep (c ∷ s) = let parts = split sep s in if eqb c sep then [] ∷ parts else cons_first c parts

-- `strings.Join`
unfoldable pub join : Bytes → List Bytes → Bytes
join sep [] = []
join sep (part ∷ []) = part
join sep (part ∷ next ∷ parts) = part ++ (sep ++ join sep (next ∷ parts))

trim_space_runs : trim_space (bytes " a b " ++ (0xc2 ∷ 0xa0 ∷ [])) ≡ bytes "a b"
unfolding trim_space
trim_space_runs = refl

split_runs : split b'/' (bytes "a//b") ≡ bytes "a" ∷ [] ∷ bytes "b" ∷ []
unfolding split
split_runs = refl
