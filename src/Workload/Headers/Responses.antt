-- ===== src/Workload/Headers/Responses.antt =====
-- apps/workload-router/internal/router/router.go: what is left of the headers of a response.
use agent_sandbox_platform.Base.{
  Bool, true, Occurs, subst, Option-cases, false, none, some, List, [], ◌∷◌, ◌++◌, Bytes, ◌==◌,
  bytes_eq, ◌≡◌, refl, sym, ap, ◌∙◌, arith, if◌then◌else◌, Bool-cases, inl, inr,
}
use agent_sandbox_platform.Base.Text.{bytes, trim_space, has_prefix}
use agent_sandbox_platform.Base.Text.Splitting.{Lacks, has_prefix-rest}
use agent_sandbox_platform.Workload.Headers.Pairs.{before-some, before-append}
use agent_sandbox_platform.Base.Dict.{lookup, erase, lookup-insert, lookup-erase}
use agent_sandbox_platform.Workload.Headers.{
  before, session_cookie_name, Header, Spelling, values, values_or_none, add, set_cookie_key,
  clear_site_data_key, sets_other_cookie, add_cookies, clears_any, clears_cookies, contains_text,
  strip_reserved_response_headers,
}
use agent_sandbox_platform.Workload.Headers.Stripping.{select, append-nil}

values-add :
    (key value : Bytes) (header : Header)
    → values key (add key value header) ≡ values key header ++ (value ∷ [])
unfolding values add
values-add key value header =
    let found : lookup key (add key value header) ≡ some (values key header ++ (value ∷ [])) =
      lookup-insert key key (values key header ++ (value ∷ [])) header ∙ ground arith in
    ap values_or_none found

append_between :
    (xs : List Bytes) (x : Bytes) (ys : List Bytes) → (xs ++ (x ∷ [])) ++ ys ≡ xs ++ (x ∷ ys)
append_between [] x ys = refl
append_between (z ∷ xs) x ys = ap (◌∷◌ z) (append_between xs x ys)

Occurs-select :
    (p : Bytes → Bool) (x : Bytes) (xs : List Bytes)
    → Occurs x (select p xs)
    → (p x ≡ true) × Occurs x xs
Occurs-select p x [] m = absurd m
Occurs-select p x (y ∷ ys) m = elim (Bool-cases (p y)) [
  | inl e ↦ elim (rw e at m) [
    | inl same ↦ (ap p same ∙ e, inl same)
    | inr there ↦ let (q, at) = Occurs-select p x ys there in (q, inr at)
  ]
  | inr e ↦ let (q, at) = Occurs-select p x ys (rw e at m) in (q, inr at)
]

select-Occurs :
    (p : Bytes → Bool) (x : Bytes) (xs : List Bytes)
    → p x ≡ true
    → Occurs x xs
    → Occurs x (select p xs)
select-Occurs p x [] q m = absurd m
select-Occurs p x (y ∷ ys) q (inl same) =
    let e : p y ≡ true = ap p (sym same) ∙ q in rw e (inl same)
select-Occurs p x (y ∷ ys) q (inr there) =
    let rest = select-Occurs p x ys q there in
    elim (Bool-cases (p y)) [ inl e ↦ rw e (inr rest) | inr e ↦ rw e rest ]

contains_text-prefix : (part s : Bytes) → has_prefix part s ≡ true → contains_text part s ≡ true
unfolding contains_text
contains_text-prefix part [] h = h
contains_text-prefix part (c ∷ s) h = ground (arith, h)

has_prefix-append : (part rest : Bytes) → has_prefix part (part ++ rest) ≡ true
unfolding has_prefix
has_prefix-append [] rest = refl
has_prefix-append (c ∷ part) rest = ground (arith, has_prefix-append part rest)

contains_text-append :
    (part front rest : Bytes) → contains_text part (front ++ (part ++ rest)) ≡ true
unfolding contains_text
contains_text-append part [] rest =
    contains_text-prefix part (part ++ rest) (has_prefix-append part rest)
contains_text-append part (c ∷ front) rest = ground (arith, contains_text-append part front rest)

contains_text-split :
    (part s : Bytes)
    → contains_text part s ≡ true
    → (front : Bytes) × (rest : Bytes) × (s ≡ front ++ (part ++ rest))
unfolding contains_text
contains_text-split part [] h = let (rest, e) = has_prefix-rest part [] h in ([], rest, e)
contains_text-split part (c ∷ s) h = elim (Bool-cases (has_prefix part (c ∷ s))) [
  | inl e ↦ let (rest, split) = has_prefix-rest part (c ∷ s) e in ([], rest, split)
  | inr e ↦
      let (front, rest, split) = contains_text-split part s (ground (arith, h, e)) in
      (c ∷ front, rest, ap (◌∷◌ c) split)
]

module _ (spelling : Spelling) where
  -- A value of `Set-Cookie` with a name that is the session's, without the spaces around and in any
  -- case.
  pub record IsSessionCookie (cookie : Bytes) : Type 0 where
    pub name : Bytes
    pub rest : Bytes
    pub written : cookie ≡ name ++ b'=' ∷ rest
    pub first : Lacks b'=' name
    pub named : spelling.equal_fold (trim_space name) session_cookie_name ≡ true

  sets_other_cookie-other :
      (cookie : Bytes) → (IsSessionCookie cookie → ⊥) → sets_other_cookie spelling cookie ≡ true
  unfolding sets_other_cookie
  sets_other_cookie-other cookie h = elim (Option-cases (before b'=' cookie)) [
    | inl n ↦ ground (arith, n)
    | inr (name, n) ↦
        elim (Bool-cases (spelling.equal_fold (trim_space name) session_cookie_name)) [
          | inl e ↦
              let (rest, split, lacks) = before-some b'=' cookie name n in
              absurd
                (h (record { name = name; rest = rest; written = split; first = lacks; named = e }))
          | inr e ↦ ground (arith, n, e)
        ]
  ]

  sets_other_cookie-session :
      (cookie : Bytes) → IsSessionCookie cookie → sets_other_cookie spelling cookie ≡ false
  unfolding sets_other_cookie
  sets_other_cookie-session cookie h =
      let n : before b'=' cookie ≡ some h.name =
        ap (before b'=') h.written ∙ before-append b'=' h.name h.rest h.first in
      ground (arith, n, h.named)

  values-add_cookies :
      (cookies : List Bytes) (header : Header)
      → values set_cookie_key (add_cookies spelling cookies header)
        ≡ values set_cookie_key header ++ select (sets_other_cookie spelling) cookies
  unfolding add_cookies
  values-add_cookies [] header = sym (append-nil (values set_cookie_key header))
  values-add_cookies (cookie ∷ cookies) header =
      elim (Bool-cases (sets_other_cookie spelling cookie)) [
        | inl e ↦
            rw
              (
                e,
                values-add_cookies cookies (add set_cookie_key cookie header),
                values-add set_cookie_key cookie header,
              )
              (append_between (values set_cookie_key header) cookie
                (select (sets_other_cookie spelling) cookies))
        | inr e ↦ rw e (values-add_cookies cookies header)
      ]

  lookup-add_cookies :
      (key : Bytes) (cookies : List Bytes) (header : Header)
      → (key == set_cookie_key) ≡ false
      → lookup key (add_cookies spelling cookies header) ≡ lookup key header
  unfolding add_cookies add
  lookup-add_cookies key [] header h = refl
  lookup-add_cookies key (cookie ∷ cookies) header h =
      elim (Bool-cases (sets_other_cookie spelling cookie)) [
        | inl e ↦ rw e (
            lookup-add_cookies key cookies (add set_cookie_key cookie header) h
            ∙ lookup-insert key set_cookie_key (values set_cookie_key header ++ (cookie ∷ []))
                header
            ∙ ground (arith, h))
        | inr e ↦ rw e (lookup-add_cookies key cookies header h)
      ]

  -- A value of `Clear-Site-Data` that tells a browser to clear cookies: in lower case it has `"cookies"`
  -- or `"*"` somewhere, quotes included.
  pub data AsksForCookies (value : Bytes) : Type 0 where
    for_cookies :
        (front rest : Bytes)
        → spelling.to_lower value ≡ front ++ (bytes "\"cookies\"" ++ rest)
        → AsksForCookies value
    for_all :
        (front rest : Bytes)
        → spelling.to_lower value ≡ front ++ (bytes "\"*\"" ++ rest)
        → AsksForCookies value

  clears_cookies-asked :
      (value : Bytes) → AsksForCookies value → clears_cookies spelling value ≡ true
  unfolding clears_cookies
  clears_cookies-asked value (for_cookies front rest e) =
      ground (arith, e, contains_text-append (bytes "\"cookies\"") front rest)
  clears_cookies-asked value (for_all front rest e) =
      ground (arith, e, contains_text-append (bytes "\"*\"") front rest)

  clears_cookies-asks :
      (value : Bytes) → clears_cookies spelling value ≡ true → AsksForCookies value
  unfolding clears_cookies
  clears_cookies-asks value h =
      let lower = spelling.to_lower value in
      elim (Bool-cases (contains_text (bytes "\"cookies\"") lower)) [
        | inl e ↦
            let (front, rest, split) = contains_text-split (bytes "\"cookies\"") lower e in
            for_cookies front rest split
        | inr e ↦
            let (front, rest, split) =
              contains_text-split (bytes "\"*\"") lower (ground (arith, h, e)) in
            for_all front rest split
      ]

  none_asks :
      (found : List Bytes) (value : Bytes)
      → clears_any spelling found ≡ false
      → Occurs value found
      → AsksForCookies value
      → ⊥
  unfolding clears_any
  none_asks [] value h m asks = m
  none_asks (first ∷ more) value h m asks = elim (Bool-cases (clears_cookies spelling first)) [
    | inl e ↦ ground (arith, h, e)
    | inr e ↦ elim m [
      | inl same ↦ ground (arith, e, same, clears_cookies-asked value asks)
      | inr there ↦ none_asks more value (ground (arith, h, e)) there asks
    ]
  ]

  one_asks :
      (found : List Bytes)
      → clears_any spelling found ≡ true
      → (value : Bytes) × Occurs value found × AsksForCookies value
  unfolding clears_any
  one_asks [] h = absurd (ground (arith, h))
  one_asks (first ∷ more) h = elim (Bool-cases (clears_cookies spelling first)) [
    | inl e ↦ (first, inl refl, clears_cookies-asks first e)
    | inr e ↦ let (value, at, asks) = one_asks more (ground (arith, h, e)) in (value, inr at, asks)
  ]

  -- The headers `out` of a response, once those are taken out that would change the session.
  pub record IsGuarded (header out : Header) : Type 0 where
    pub allowed :
        (cookie : Bytes)
        → Occurs cookie (values set_cookie_key out)
        → (IsSessionCookie cookie → ⊥) × Occurs cookie (values set_cookie_key header)
    pub passed :
        (cookie : Bytes)
        → Occurs cookie (values set_cookie_key header)
        → (IsSessionCookie cookie → ⊥)
        → Occurs cookie (values set_cookie_key out)
    pub in_order :
        values set_cookie_key out
        ≡ select (sets_other_cookie spelling) (values set_cookie_key header)
    pub kept_session :
        (value : Bytes) → Occurs value (values clear_site_data_key out) → AsksForCookies value → ⊥
    pub untouched :
        ((value : Bytes)
          → Occurs value (values clear_site_data_key header)
          → AsksForCookies value
          → ⊥)
        → lookup clear_site_data_key out ≡ lookup clear_site_data_key header
    pub other :
        (key : Bytes)
        → (key == set_cookie_key) ≡ false
        → (key == clear_site_data_key) ≡ false
        → lookup key out ≡ lookup key header

  guarded_cookies : Header → Header
  guarded_cookies header =
      add_cookies spelling (values set_cookie_key header) (erase set_cookie_key header)

  guarded_cookies-values :
      (header : Header)
      → values set_cookie_key (guarded_cookies header)
        ≡ select (sets_other_cookie spelling) (values set_cookie_key header)
  unfolding guarded_cookies values bytes_eq
  guarded_cookies-values header =
      values-add_cookies (values set_cookie_key header) (erase set_cookie_key header)
      ∙ ap
          (λ found.
            values_or_none found
            ++ select (sets_other_cookie spelling) (values set_cookie_key header))
          (lookup-erase set_cookie_key set_cookie_key header)

  guarded_cookies-other :
      (key : Bytes) (header : Header)
      → (key == set_cookie_key) ≡ false
      → lookup key (guarded_cookies header) ≡ lookup key header
  unfolding guarded_cookies
  guarded_cookies-other key header h =
      lookup-add_cookies key (values set_cookie_key header) (erase set_cookie_key header) h
      ∙ lookup-erase key set_cookie_key header
      ∙ ground (arith, h)

  allowed_by :
      (header out : Header)
      → values set_cookie_key out
        ≡ select (sets_other_cookie spelling) (values set_cookie_key header)
      → (cookie : Bytes) → Occurs cookie (values set_cookie_key out)
      → (IsSessionCookie cookie → ⊥) × Occurs cookie (values set_cookie_key header)
  allowed_by header out e cookie m =
      let (other, there) =
        Occurs-select (sets_other_cookie spelling) cookie (values set_cookie_key header)
          (subst (Occurs cookie) e m) in
      (λ session. ground (arith, other, sets_other_cookie-session cookie session), there)

  passed_by :
      (header out : Header)
      → values set_cookie_key out
        ≡ select (sets_other_cookie spelling) (values set_cookie_key header)
      → (cookie : Bytes) → Occurs cookie (values set_cookie_key header)
      → (IsSessionCookie cookie → ⊥)
      → Occurs cookie (values set_cookie_key out)
  passed_by header out e cookie m h = subst (Occurs cookie) (sym e) (
      select-Occurs (sets_other_cookie spelling) cookie (values set_cookie_key header)
        (sets_other_cookie-other cookie h) m)

  -- `stripReservedResponseHeaders` leaves in a response exactly the cookies that the upstream sets and
  -- that are not named like the session's, in their order, and no value of `Clear-Site-Data` that has
  -- `"cookies"` or `"*"` in it; where none has, that header is untouched, and every other header is. What
  -- `rewriteLocation` does to `Location` afterwards is not part of it.
  pub strip_reserved-IsGuarded :
      (header : Header) → IsGuarded header (strip_reserved_response_headers spelling header)
  unfolding strip_reserved_response_headers guarded_cookies values bytes_eq clears_any
  strip_reserved-IsGuarded header =
      let kept = guarded_cookies header in
      let rest = erase clear_site_data_key kept in
      let cleared : (key : Bytes)
          → lookup key rest ≡ (if key == clear_site_data_key then none else lookup key kept) =
        λ key. lookup-erase key clear_site_data_key kept in
      let same = guarded_cookies-values header in
      let still = ap values_or_none (cleared set_cookie_key) ∙ same in
      elim (Bool-cases (clears_any spelling (values clear_site_data_key kept))) [
        | inl e ↦ rw e (record {
          allowed = allowed_by header rest still;
          passed = passed_by header rest still;
          in_order = still;
          kept_session = λ value m asks.
              none_asks (values clear_site_data_key rest) value
                (ap (λ found. clears_any spelling (values_or_none found))
                  (cleared clear_site_data_key))
                m asks;
          untouched = λ quiet.
              let (value, at, asks) = one_asks (values clear_site_data_key kept) e in
              absurd (
                quiet value
                  (subst (λ found. Occurs value (values_or_none found))
                    (guarded_cookies-other clear_site_data_key header refl) at)
                  asks);
          other = λ key h k. cleared key ∙ ground (arith, k, guarded_cookies-other key header h);
        })
        | inr e ↦ rw e (record {
          allowed = allowed_by header kept same;
          passed = passed_by header kept same;
          in_order = same;
          kept_session = λ value m asks. none_asks (values clear_site_data_key kept) value e m asks;
          untouched = λ quiet. guarded_cookies-other clear_site_data_key header refl;
          other = λ key h k. guarded_cookies-other key header h;
        })
      ]
