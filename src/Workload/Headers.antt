-- ===== src/Workload/Headers.antt =====
-- apps/workload-router/internal/router/router.go: the headers that the router takes out of requests and
-- responses, and `http.Header`, a map whose keys are canonical.
pub mod Pairs
pub mod Stripping
pub mod Responses
use agent_sandbox_platform.Base.{
  ℕ, Bool, true, false, not, ◌&&◌, ◌||◌, Option, none, some, List, [], ◌∷◌, ◌++◌, Bytes, ◌==◌,
  bytes_eq, eqb, if◌then◌else◌,
}
use agent_sandbox_platform.Base.Dict.{Dict, lookup, insert, erase}
use agent_sandbox_platform.Base.Text.{bytes, has_prefix, trim_space, split, join}

abbrev pub Header : Type 0
Header = Dict Bytes (List Bytes)

abbrev pub values_or_none : Option (List Bytes) → List Bytes
values_or_none none = []
values_or_none (some values) = values

-- `header.Values`
unfoldable pub values : Bytes → Header → List Bytes
values key header = values_or_none (lookup key header)

-- The first of some values, or the empty string.
abbrev pub first_or_empty : List Bytes → Bytes
first_or_empty [] = []
first_or_empty (value ∷ others) = value

-- `header.Get`
unfoldable pub get : Bytes → Header → Bytes
get key header = first_or_empty (values key header)

-- `header.Set`
unfoldable pub set : Bytes → Bytes → Header → Header
set key value header = insert key (value ∷ []) header

-- `header.Add`
unfoldable pub add : Bytes → Bytes → Header → Header
add key value header = insert key (values key header ++ (value ∷ [])) header

-- What is called of other packages: `strings.ToLower` and `strings.EqualFold`, which know Unicode, and
-- `textproto.CanonicalMIMEHeaderKey`.
pub record Spelling : Type 0 where
  pub to_lower : Bytes → Bytes
  pub equal_fold : Bytes → Bytes → Bool
  pub canonical_key : Bytes → Bytes

abbrev pub session_cookie_name : Bytes
session_cookie_name = bytes "__Host-asp_session"

abbrev pub cookie_key : Bytes
cookie_key = bytes "Cookie"

abbrev pub set_cookie_key : Bytes
set_cookie_key = bytes "Set-Cookie"

abbrev pub clear_site_data_key : Bytes
clear_site_data_key = bytes "Clear-Site-Data"

-- `strings.Cut` at one byte, by what stands before it.
unfoldable pub before : ℕ → Bytes → Option Bytes
before sep [] = none
before sep (c ∷ text) =
    let rest = before sep text in
    if eqb c sep then some [] else elim rest [ none ↦ none | some front ↦ some (c ∷ front) ]

-- `strings.Contains`
unfoldable pub contains_text : Bytes → Bytes → Bool
contains_text part [] = has_prefix part []
contains_text part (c ∷ text) =
    let rest = contains_text part text in if has_prefix part (c ∷ text) then true else rest

-- A pair with a name that is not the session's.
unfoldable pub is_other_cookie : Bytes → Bool
is_other_cookie pair = elim (before b'=' pair) [
  | none ↦ false
  | some name ↦ not (name == session_cookie_name)
]

-- The inner loop of `stripSessionCookie`.
unfoldable pub kept_parts : List Bytes → List Bytes
kept_parts [] = []
kept_parts (part ∷ parts) =
    let kept = kept_parts parts in
    if is_other_cookie (trim_space part) then trim_space part ∷ kept else kept

-- Its outer loop.
unfoldable pub kept_pairs : List Bytes → List Bytes
kept_pairs [] = []
kept_pairs (value ∷ more) = kept_parts (split b';' value) ++ kept_pairs more

abbrev pub with_cookies : List Bytes → Header → Header
with_cookies [] header = header
with_cookies (pair ∷ pairs) header = set cookie_key (join (bytes "; ") (pair ∷ pairs)) header

-- `stripSessionCookie`
unfoldable pub strip_session_cookie : Header → Header
strip_session_cookie header =
    with_cookies (kept_pairs (values cookie_key header)) (erase cookie_key header)

module _ (spelling : Spelling) where
  unfoldable pub is_sensitive : Bytes → Bool
  is_sensitive name =
      let lower = spelling.to_lower name in
      lower == bytes "authorization"
      || lower == bytes "proxy-authorization"
      || has_prefix (bytes "x-asp-") lower

  -- The loop of `stripSensitiveRequestHeaders`, over the entries that the header had.
  unfoldable pub strip_names : Header → Header → Header
  strip_names [] header = header
  strip_names ((name, _) ∷ entries) header =
      strip_names entries
        (if is_sensitive name then erase (spelling.canonical_key name) header else header)

  -- `stripSensitiveRequestHeaders`
  unfoldable pub strip_sensitive_request_headers : Header → Header
  strip_sensitive_request_headers header = strip_names header header

  -- The headers of a forwarded request.
  unfoldable pub forwarded_header : Header → Header
  forwarded_header header = strip_session_cookie (strip_sensitive_request_headers header)

  -- A `Set-Cookie` that does not set the session.
  unfoldable pub sets_other_cookie : Bytes → Bool
  sets_other_cookie cookie = elim (before b'=' cookie) [
    | none ↦ true
    | some name ↦ not (spelling.equal_fold (trim_space name) session_cookie_name)
  ]

  unfoldable pub add_cookies : List Bytes → Header → Header
  add_cookies [] header = header
  add_cookies (cookie ∷ cookies) header =
      add_cookies cookies
        (if sets_other_cookie cookie then add set_cookie_key cookie header else header)

  -- Whether a value of `Clear-Site-Data` asks for the cookies.
  unfoldable pub clears_cookies : Bytes → Bool
  clears_cookies value =
      let lower = spelling.to_lower value in
      contains_text (bytes "\"cookies\"") lower || contains_text (bytes "\"*\"") lower

  unfoldable pub clears_any : List Bytes → Bool
  clears_any [] = false
  clears_any (value ∷ more) =
      let rest = clears_any more in if clears_cookies value then true else rest

  -- `stripReservedResponseHeaders`
  unfoldable pub strip_reserved_response_headers : Header → Header
  strip_reserved_response_headers header =
      let kept = add_cookies (values set_cookie_key header) (erase set_cookie_key header) in
      if clears_any (values clear_site_data_key kept) then erase clear_site_data_key kept else kept
