-- ===== src/Workload/Headers/Stripping.antt =====
-- apps/workload-router/internal/router/router.go: what is left of the headers of a request that is
-- forwarded.
use agent_sandbox_platform.Base.{
  Bool, true, false, none, some, List, [], ◌∷◌, ◌++◌, Bytes, ◌==◌, bytes_eq, eqb, ◌≡◌, ◌⊎◌, refl,
  ap, ◌∙◌, arith, All, map, if◌then◌else◌, Option-cases, Bool-cases, inl, inr,
}
use agent_sandbox_platform.Base.Dict.{lookup, erase, lookup-insert, lookup-erase}
use agent_sandbox_platform.Base.Text.{bytes, has_prefix, trim_space, split, join, cons_first}
use agent_sandbox_platform.Base.Text.Splitting.{Lacks, split-Lacks, split-append, split-part}
use agent_sandbox_platform.Base.Text.Trimming.{any-trim_space}
use agent_sandbox_platform.Workload.Headers.Pairs.{is_forwardable, is_other_cookie-is_forwardable}
use agent_sandbox_platform.Workload.Headers.{
  Header, Spelling, values, values_or_none, set, cookie_key, kept_parts, kept_pairs, with_cookies,
  strip_session_cookie, is_sensitive, strip_names, strip_sensitive_request_headers,
  forwarded_header,
}

-- Those that pass a test, in their order.
abbrev pub select : (Bytes → Bool) → List Bytes → List Bytes
select p [] = []
select p (x ∷ xs) = if p x then x ∷ select p xs else select p xs

select-append :
    (p : Bytes → Bool) (xs ys : List Bytes) → select p (xs ++ ys) ≡ select p xs ++ select p ys
select-append p [] ys = refl
select-append p (x ∷ xs) ys = ground (arith, select-append p xs ys)

-- The pairs of a value of `Cookie`: what semicolons separate, without the spaces around.
abbrev pub pairs_of : Bytes → List Bytes
pairs_of value = map trim_space (split b';' value)

abbrev pub all_pairs : List Bytes → List Bytes
all_pairs [] = []
all_pairs (value ∷ more) = pairs_of value ++ all_pairs more

kept_parts-select :
    (parts : List Bytes) → kept_parts parts ≡ select is_forwardable (map trim_space parts)
unfolding kept_parts
kept_parts-select [] = refl
kept_parts-select (part ∷ parts) =
    ground (arith, kept_parts-select parts, is_other_cookie-is_forwardable (trim_space part))

kept_pairs-select :
    (values : List Bytes) → kept_pairs values ≡ select is_forwardable (all_pairs values)
unfolding kept_pairs
kept_pairs-select [] = refl
kept_pairs-select (value ∷ more) = rw (
  kept_pairs,
  kept_parts-select (split b';' value),
  kept_pairs-select more,
  select-append is_forwardable (pairs_of value) (all_pairs more),
)

-- A text as a cookie header is read: its parts between semicolons, of which all but the first lose
-- the space in front.
abbrev pub without_space : Bytes → Bytes
without_space [] = []
without_space (c ∷ text) = if eqb c 32 then text else c ∷ text

abbrev pub read_parts : List Bytes → List Bytes
read_parts [] = []
read_parts (part ∷ parts) = part ∷ map without_space parts

unfoldable pub read_cookies : List Bytes → List Bytes
read_cookies [] = []
read_cookies (value ∷ more) = read_parts (split b';' value) ++ read_cookies more

All-Lacks-select :
    (p : Bytes → Bool) (parts : List Bytes)
    → All (Lacks b';') parts
    → All (Lacks b';') (select p (map trim_space parts))
All-Lacks-select p [] h = tt
All-Lacks-select p (part ∷ parts) h =
    let rest = All-Lacks-select p parts h.1 in
    elim (Bool-cases (p (trim_space part))) [
      | inl e ↦ rw e (any-trim_space (λ c. eqb c b';') part h.0, rest)
      | inr e ↦ rw e rest
    ]

All-Lacks-append :
    (xs ys : List Bytes) → All (Lacks b';') xs → All (Lacks b';') ys → All (Lacks b';') (xs ++ ys)
All-Lacks-append [] ys h k = k
All-Lacks-append (x ∷ xs) ys h k = (h.0, All-Lacks-append xs ys h.1 k)

kept_pairs-Lacks : (values : List Bytes) → All (Lacks b';') (kept_pairs values)
unfolding kept_pairs
kept_pairs-Lacks [] = tt
kept_pairs-Lacks (value ∷ more) = rw (kept_parts-select (split b';' value)) (
    All-Lacks-append (select is_forwardable (pairs_of value)) (kept_pairs more)
      (All-Lacks-select is_forwardable (split b';' value) (split-Lacks b';' value))
      (kept_pairs-Lacks more))

split-join_spaced :
    (p : Bytes) (ps : List Bytes)
    → All (Lacks b';') (p ∷ ps)
    → split b';' (join (bytes "; ") (p ∷ ps)) ≡ p ∷ map (◌∷◌ 32) ps
unfolding join split cons_first
split-join_spaced p [] h = split-part b';' p h.0
split-join_spaced p (q ∷ ps) h =
    split-append b';' p (32 ∷ join (bytes "; ") (q ∷ ps)) h.0
    ∙ ap (λ parts. p ∷ cons_first 32 parts) (split-join_spaced q ps h.1)

without_space-map : (ps : List Bytes) → map without_space (map (◌∷◌ 32) ps) ≡ ps
without_space-map [] = refl
without_space-map (p ∷ ps) = ap (◌∷◌ p) (without_space-map ps)

pub append-nil : (xs : List Bytes) → xs ++ [] ≡ xs
append-nil [] = refl
append-nil (x ∷ xs) = ap (◌∷◌ x) (append-nil xs)

read_cookies-with_cookies :
    (pairs : List Bytes) (header : Header)
    → All (Lacks b';') pairs
    → lookup cookie_key header ≡ none
    → read_cookies (values cookie_key (with_cookies pairs header)) ≡ pairs
unfolding read_cookies values set bytes_eq
read_cookies-with_cookies [] header h empty = rw empty refl
read_cookies-with_cookies (p ∷ ps) header h empty =
    rw
      (
        lookup-insert cookie_key cookie_key (join (bytes "; ") (p ∷ ps) ∷ []) header,
        split-join_spaced p ps h,
        without_space-map ps,
      )
      (append-nil (p ∷ ps))

lookup-with_cookies :
    (key : Bytes) (pairs : List Bytes) (header : Header)
    → (key == cookie_key) ≡ false
    → lookup key (with_cookies pairs header) ≡ lookup key header
unfolding set
lookup-with_cookies key [] header h = refl
lookup-with_cookies key (p ∷ ps) header h =
    lookup-insert key cookie_key (join (bytes "; ") (p ∷ ps) ∷ []) header ∙ ground (arith, h)

-- What is read of the cookies that are forwarded: the pairs that came, without the session's.
read_cookies-strip_session_cookie :
    (header : Header)
    → read_cookies (values cookie_key (strip_session_cookie header))
      ≡ select is_forwardable (all_pairs (values cookie_key header))
unfolding strip_session_cookie
read_cookies-strip_session_cookie header =
    read_cookies-with_cookies (kept_pairs (values cookie_key header)) (erase cookie_key header)
      (kept_pairs-Lacks (values cookie_key header))
      (lookup-erase cookie_key cookie_key header ∙ ground arith)
    ∙ kept_pairs-select (values cookie_key header)

lookup-strip_session_cookie :
    (key : Bytes) (header : Header)
    → (key == cookie_key) ≡ false
    → lookup key (strip_session_cookie header) ≡ lookup key header
unfolding strip_session_cookie
lookup-strip_session_cookie key header h =
    lookup-with_cookies key (kept_pairs (values cookie_key header)) (erase cookie_key header) h
    ∙ lookup-erase key cookie_key header
    ∙ ground (arith, h)

module _ (spelling : Spelling) where
  -- Every key is spelled in the canonical way, as the server reads them.
  abbrev pub IsCanonical : Header → Type 0
  IsCanonical header = All (λ entry. spelling.canonical_key entry.0 ≡ entry.0) header

  lookup-strip_names-none :
      (key : Bytes) (entries header : Header)
      → lookup key header ≡ none
      → lookup key (strip_names spelling entries header) ≡ none
  unfolding strip_names
  lookup-strip_names-none key [] header h = h
  lookup-strip_names-none key ((name, vs) ∷ entries) header h =
      lookup-strip_names-none key entries
        (if is_sensitive spelling name then erase (spelling.canonical_key name) header else header)
        (ground (arith, h, lookup-erase key (spelling.canonical_key name) header))

  lookup-strip_names-sensitive :
      (key : Bytes) (entries header : Header) (vs : List Bytes)
      → IsCanonical entries
      → is_sensitive spelling key ≡ true
      → lookup key entries ≡ some vs
      → lookup key (strip_names spelling entries header) ≡ none
  unfolding strip_names lookup
  lookup-strip_names-sensitive key [] header vs c s h = absurd (ground (arith, h))
  lookup-strip_names-sensitive key ((name, ws) ∷ entries) header vs c s h =
      let next =
        if is_sensitive spelling name then erase (spelling.canonical_key name) header else header in
      elim (Bool-cases (key == name)) [
        | inl e ↦
            lookup-strip_names-none key entries next
              (ground (arith, e, s, c.0, lookup-erase key (spelling.canonical_key name) header))
        | inr e ↦ lookup-strip_names-sensitive key entries next vs c.1 s (ground (arith, h, e))
      ]

  lookup-strip_names-other :
      (key : Bytes) (entries header : Header)
      → IsCanonical entries
      → is_sensitive spelling key ≡ false
      → lookup key (strip_names spelling entries header) ≡ lookup key header
  unfolding strip_names
  lookup-strip_names-other key [] header c s = refl
  lookup-strip_names-other key ((name, ws) ∷ entries) header c s =
      lookup-strip_names-other key entries
        (if is_sensitive spelling name then erase (spelling.canonical_key name) header else header)
        c.1 s
      ∙ ground (arith, s, c.0, lookup-erase key (spelling.canonical_key name) header)

  lookup-strip_sensitive :
      (key : Bytes) (header : Header)
      → IsCanonical header
      → lookup key (strip_sensitive_request_headers spelling header)
        ≡ (if is_sensitive spelling key then none else lookup key header)
  unfolding strip_sensitive_request_headers
  lookup-strip_sensitive key header c = elim (Bool-cases (is_sensitive spelling key)) [
    | inl s ↦ rw s (elim (Option-cases (lookup key header)) [
      | inl e ↦ lookup-strip_names-none key header header e
      | inr (vs, e) ↦ lookup-strip_names-sensitive key header header vs c s e
    ])
    | inr s ↦ rw s (lookup-strip_names-other key header header c s)
  ]

  -- A header that carries a credential or is the router's own.
  abbrev pub IsCredential : Bytes → Type 0
  IsCredential key =
      (spelling.to_lower key ≡ bytes "authorization")
      ⊎ (spelling.to_lower key ≡ bytes "proxy-authorization")
      ⊎ (has_prefix (bytes "x-asp-") (spelling.to_lower key) ≡ true)

  is_sensitive-credential : (key : Bytes) → IsCredential key → is_sensitive spelling key ≡ true
  unfolding is_sensitive
  is_sensitive-credential key (inl e) = ground (arith, e)
  is_sensitive-credential key (inr (inl e)) = ground (arith, e)
  is_sensitive-credential key (inr (inr e)) = ground (arith, e)

  is_sensitive-other : (key : Bytes) → (IsCredential key → ⊥) → is_sensitive spelling key ≡ false
  unfolding is_sensitive
  is_sensitive-other key h =
      let lower = spelling.to_lower key in
      elim (Bool-cases (lower == bytes "authorization")) [
        | inl a ↦ absurd (h (inl (ground (arith, a))))
        | inr a ↦ elim (Bool-cases (lower == bytes "proxy-authorization")) [
          | inl b ↦ absurd (h (inr (inl (ground (arith, b)))))
          | inr b ↦ elim (Bool-cases (has_prefix (bytes "x-asp-") lower)) [
            | inl c ↦ absurd (h (inr (inr c)))
            | inr c ↦ ground (arith, a, b, c)
          ]
        ]
      ]

  -- The headers `out` that are left of the outgoing ones.
  pub record IsClean (header out : Header) : Type 0 where
    pub secret :
        (key : Bytes) → IsCredential key → (key == cookie_key) ≡ false → lookup key out ≡ none
    pub other :
        (key : Bytes)
        → (IsCredential key → ⊥)
        → (key == cookie_key) ≡ false
        → lookup key out ≡ lookup key header
    pub cookies :
        read_cookies (values cookie_key out)
        ≡ select is_forwardable (all_pairs (values cookie_key header))

  pub forwarded_header-IsClean :
      (header : Header)
      → IsCanonical header
      → (IsCredential cookie_key → ⊥)
      → IsClean header (forwarded_header spelling header)
  unfolding forwarded_header values
  forwarded_header-IsClean header c plain =
      let passed = strip_sensitive_request_headers spelling header in
      let kept : lookup cookie_key passed ≡ lookup cookie_key header =
        lookup-strip_sensitive cookie_key header c
        ∙ ground (arith, is_sensitive-other cookie_key plain) in
      record {
        secret = λ key s e.
            lookup-strip_session_cookie key passed e
            ∙ lookup-strip_sensitive key header c
            ∙ ground (arith, is_sensitive-credential key s);
        other = λ key s e.
            lookup-strip_session_cookie key passed e
            ∙ lookup-strip_sensitive key header c
            ∙ ground (arith, is_sensitive-other key s);
        cookies =
            read_cookies-strip_session_cookie passed
            ∙ ap (λ found. select is_forwardable (all_pairs (values_or_none found))) kept;
      }
