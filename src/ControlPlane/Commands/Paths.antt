-- ===== src/ControlPlane/Commands/Paths.antt =====
-- A workspace path never leaves the workspace.
use agent_sandbox_platform.Base.{
  true, List, [], ◌∷◌, ◌++◌, Bytes, bytes_eq, ◌≡◌, refl, ◌∙◌, ap, sym, subst, All, arith, inl, inr,
  ◌⊎◌,
}
use agent_sandbox_platform.Base.Result.{ok}
use agent_sandbox_platform.Base.Text.{bytes, has_prefix, split, join}
use agent_sandbox_platform.Base.Text.Splitting.{
  split-part, split-append, split-join, has_prefix-rest,
}
use agent_sandbox_platform.Codec.PosixPath.{clean, absolute}
use agent_sandbox_platform.Codec.PosixPath.Laws.{
  IsPlain, plain_parts_lem, clean-absolute, clean-of_plain,
}
use agent_sandbox_platform.ControlPlane.Commands.{
  workspace_path, rooted_path, default_path, in_workspace, normalize_workspace_path,
}

-- `clean` of what has a slash in front has a slash in front.
rooted_path-rooted : (value : Bytes) → has_prefix (bytes "/") (rooted_path value) ≡ true
unfolding has_prefix clean absolute
rooted_path-rooted value = ground arith

-- The names from the root that such a text splits into.
names_of_join :
    (names : List Bytes) (s : Bytes)
    → All IsPlain names
    → absolute names ≡ b'/' ∷ s
    → (names ≡ []) × (s ≡ []) ⊎ (names ≡ split b'/' s)
unfolding absolute
names_of_join [] s h e = inl (refl, unfold join in ground arith)
names_of_join (name ∷ names) s h e = inr (
    sym (split-join b'/' name names (plain_parts_lem (name ∷ names) h))
    ∙ ap (split b'/') (tail_eq e))
  where
    tail_eq : {t u : Bytes} → b'/' ∷ t ≡ b'/' ∷ u → t ≡ u
    tail_eq p = ground arith

-- The names from the root of a path in the workspace begin with the workspace's.
names_in_workspace :
    (names : List Bytes)
    → All IsPlain names
    → in_workspace (absolute names) ≡ true
    → (below : List Bytes) × (names ≡ bytes "workspace" ∷ below)
names_in_workspace names h inside = elim (bytes_eq.dec (absolute names) workspace_path) [
  | yes e ↦ elim (names_of_join names (bytes "workspace") h e) [
    | inl (p, q) ↦ ground arith
    | inr p ↦ ([], p ∙ split-part b'/' (bytes "workspace") refl)
  ]
  | no ne ↦
      let (rest, e) =
        has_prefix-rest (workspace_path ++ bytes "/") (absolute names) (ground arith) in
      elim (names_of_join names (bytes "workspace" ++ (b'/' ∷ rest)) h e) [
        | inl (p, q) ↦ ground arith
        | inr p ↦ (split b'/' rest, p ∙ split-append b'/' (bytes "workspace") rest refl)
      ]
]

-- A path that is accepted is `/workspace` or names a place below it: from the root it consists of
-- `workspace` and then of names, none of them empty, `.` or `..`, and it is in canonical form.
pub normalize-in_workspace :
    (value path : Bytes)
    → normalize_workspace_path value ≡ ok path
    → (below : List Bytes) × (path ≡ absolute (bytes "workspace" ∷ below))
      × All IsPlain below
      × (clean path ≡ path)
unfolding normalize_workspace_path
normalize-in_workspace value path h =
    let source = rooted_path (default_path value) in
    let (names, e, plain) = clean-absolute source (rooted_path-rooted (default_path value)) in
    let same : path ≡ clean source = ground arith in
    let inside : in_workspace (absolute names) ≡ true = ground arith in
    let (below, f) = names_in_workspace names plain inside in
    let whole : path ≡ absolute names = same ∙ e in
    let all_plain : All IsPlain (bytes "workspace" ∷ below) = subst (All IsPlain) f plain in
    (
      below,
      whole ∙ ap absolute f,
      all_plain.1,
      ap clean whole ∙ clean-of_plain names plain ∙ sym whole,
    )
