-- ===== src/ControlPlane/Commands.antt =====
-- apps/control-plane-go/internal/backend/kubernetes/exec.go: workspace paths, the shell command of
-- an Exec request.
pub mod Paths
pub mod Quoting
use agent_sandbox_platform.Base.{
  ℕ, ◌+◌, ◌-◌, ◌*◌, Bool, true, false, not, ◌&&◌, ◌||◌, List, [], ◌∷◌, ◌++◌, map, Bytes, ◌==◌,
  bytes_eq, ltb, leb, eqb, if◌then◌else◌, all, length, take, min, String, ◌≡◌, refl,
}
use agent_sandbox_platform.Base.Result.{Result, ok, err}
use agent_sandbox_platform.Base.Dict.{Dict}
use agent_sandbox_platform.Base.Text.{bytes, has_prefix, trim_space, join}
use agent_sandbox_platform.Codec.PosixPath.{clean}
use agent_sandbox_platform.ControlPlane.Lease.{Error, typed}

abbrev pub workspace_path : Bytes
workspace_path = bytes "/workspace"

abbrev pub default_path : Bytes → Bytes
default_path value = if trim_space value == [] then workspace_path else value

-- `posixpath.Join(WorkspacePath, value)` cleans the two with a slash between.
abbrev pub rooted_path : Bytes → Bytes
rooted_path value =
    if has_prefix (bytes "/") value then value else clean (workspace_path ++ (b'/' ∷ value))

abbrev pub in_workspace : Bytes → Bool
in_workspace path = path == workspace_path || has_prefix (workspace_path ++ bytes "/") path

unfoldable pub normalize_workspace_path : Bytes → Result Error Bytes
normalize_workspace_path value =
    let path = clean (rooted_path (default_path value)) in
    if not (in_workspace path)
    then err (typed 400 "INVALID_PATH" "Path must stay inside /workspace")
    else ok path

abbrev pub quote : ℕ
quote = 39

-- `strings.ReplaceAll(value, "'", "'\\''")`
unfoldable pub escape_quotes : Bytes → Bytes
escape_quotes [] = []
escape_quotes (c ∷ s) =
    if eqb c quote then quote ∷ b'\\' ∷ quote ∷ quote ∷ escape_quotes s else c ∷ escape_quotes s

-- `shellQuote`
unfoldable pub shell_quote : Bytes → Bytes
unfolding escape_quotes
shell_quote value = quote ∷ (escape_quotes value ++ (quote ∷ []))

is_name_start : ℕ → Bool
is_name_start c = (leb b'A' c && leb c b'Z') || (leb b'a' c && leb c b'z') || eqb c b'_'

-- `^[A-Za-z_][A-Za-z0-9_]*$`
unfoldable pub is_environment_name : Bytes → Bool
unfolding is_name_start
is_environment_name [] = false
is_environment_name (c ∷ s) =
    is_name_start c && all (λ d. is_name_start d || (leb b'0' d && leb d b'9')) s

-- `<` on Go strings.
unfoldable pub before : Bytes → Bytes → Bool
before s [] = false
before [] (d ∷ t) = true
before (c ∷ s) (d ∷ t) = ltb c d || (eqb c d && before s t)

insert_sorted : Bytes × Bytes → Dict Bytes Bytes → Dict Bytes Bytes
unfolding before
insert_sorted entry [] = entry ∷ []
insert_sorted entry (next ∷ entries) =
    if before next.0 entry.0 then next ∷ insert_sorted entry entries else entry ∷ next ∷ entries

-- `sort.Strings(keys)`, the values with their keys.
unfoldable pub sort_entries : Dict Bytes Bytes → Dict Bytes Bytes
unfolding insert_sorted
sort_entries [] = []
sort_entries (entry ∷ entries) = insert_sorted entry (sort_entries entries)

unfoldable pub export_part : Bytes × Bytes → Bytes
unfolding shell_quote
export_part (key, value) = bytes "export " ++ (key ++ (bytes "=" ++ shell_quote value))

-- `shellCommand`
unfoldable pub shell_command : Bytes → Dict Bytes Bytes → Bytes → Result Error Bytes
unfolding is_environment_name sort_entries export_part
shell_command cwd env command =
    if not (all (λ (key, _). is_environment_name key) env)
    then err
        (typed 400 "INVALID_REQUEST" "environment variable names must be valid shell identifiers")
    else ok (
        join (bytes " && ") (
          (bytes "cd " ++ shell_quote cwd)
          ∷ (map export_part (sort_entries env) ++ (command ∷ []))))
