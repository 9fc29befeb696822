-- ===== src/Codec/PosixPath.antt =====
-- Package path (and path/filepath on Linux): the lexical `Clean`.
pub mod Laws
use mathlib.Core.List.{reverse}
use agent_sandbox_platform.Base.{
  Bool, true, false, not, eqb, ◌&&◌, ◌||◌, List, [], ◌∷◌, ◌++◌, Bytes, ◌==◌, bytes_eq,
  if◌then◌else◌, ◌≡◌, refl,
}
use agent_sandbox_platform.Base.Text.{bytes, has_prefix, split, join}

-- What a `..` does to the components so far, the last one first: at the root it does nothing, and
-- a relative path keeps those that it starts with.
unfoldable pub climb : Bool → List Bytes → List Bytes
climb true [] = []
climb true (top ∷ stack) = stack
climb false [] = bytes ".." ∷ []
climb false (top ∷ stack) = if top == bytes ".." then bytes ".." ∷ top ∷ stack else stack

unfoldable pub advance : Bool → List Bytes → Bytes → List Bytes
unfolding climb
advance rooted stack part =
    if part == [] || part == bytes "."
    then stack
    else if part == bytes ".."
    then climb rooted stack
    else part ∷ stack

unfoldable pub resolve : Bool → List Bytes → List Bytes → List Bytes
unfolding advance
resolve rooted stack [] = reverse stack
resolve rooted stack (part ∷ parts) = resolve rooted (advance rooted stack part) parts

-- The path of these components from the root.
unfoldable pub absolute : List Bytes → Bytes
absolute parts = b'/' ∷ join (b'/' ∷ []) parts

unfoldable pub relative : List Bytes → Bytes
relative [] = bytes "."
relative (part ∷ parts) = join (b'/' ∷ []) (part ∷ parts)

-- `path.Clean`
unfoldable pub clean : Bytes → Bytes
unfolding resolve absolute relative
clean path =
    if has_prefix (bytes "/") path
    then absolute (resolve true [] (split b'/' path))
    else relative (resolve false [] (split b'/' path))

clean_runs : clean (bytes "/workspace/./a//b/../c/") ≡ bytes "/workspace/a/c"
unfolding clean has_prefix split join bytes_eq
clean_runs = refl

clean_root : clean (bytes "/../../etc") ≡ bytes "/etc"
unfolding clean has_prefix split join bytes_eq
clean_root = refl

clean_relative : clean (bytes "a/../../b") ≡ bytes "../b"
unfolding clean has_prefix split join bytes_eq
clean_relative = refl

-- A path up to its last slash, that one included: `path.Split`.
unfoldable pub up_to_slash : Bytes → Bytes
up_to_slash [] = []
up_to_slash (c ∷ s) =
    let rest = up_to_slash s in if rest == [] && not (eqb c b'/') then [] else c ∷ rest

-- `path.Dir`
unfoldable pub dir : Bytes → Bytes
unfolding up_to_slash
dir path = clean (up_to_slash path)

dir_runs : dir (bytes "/workspace/a/b.txt") ≡ bytes "/workspace/a"
unfolding dir clean has_prefix split join bytes_eq
dir_runs = refl
