-- ===== src/Workload/Redirects.antt =====
-- apps/workload-router/internal/router/router.go, `rewriteLocation`: the redirects of an upstream.
use agent_sandbox_platform.Base.{
  Bool, true, false, not, ◌||◌, Option, none, some, List, [], ◌∷◌, String, Bytes, ◌==◌, bytes_eq,
  eqb, ap, ◌∙◌, subst, ◌≡◌, inl, inr, refl, sym, arith, if◌then◌else◌, Option-cases, Bool-cases,
}
use agent_sandbox_platform.Base.Dict.{lookup, insert, lookup-insert}
use agent_sandbox_platform.Base.Result.{Result, ok, err}
use agent_sandbox_platform.Base.Text.{bytes, has_suffix}
use agent_sandbox_platform.Workload.Headers.{Header, Spelling, values, values_or_none, set}
use agent_sandbox_platform.Workload.Resolver.{HttpServiceTarget, matches_authority}

-- What the router reads of a `url.URL`.
pub record Url : Type 0 where
  pub scheme : Bytes
  pub opaque : Bytes
  pub has_user : Bool
  pub host : Bytes
  pub path : Bytes
  pub raw_path : Bytes
  pub raw_query : Bytes
  pub force_query : Bool
  pub fragment : Bytes

-- Package net/url: `Parse`, `String`, `Hostname` of a host, and `QueryEscape`.
pub record Urls : Type 0 where
  pub parse : Bytes → Option Url
  pub print : Url → Bytes
  pub hostname_of : Bytes → Bytes
  pub query_escape : Bytes → Bytes

abbrev pub location_key : Bytes
location_key = bytes "Location"

-- `strings.TrimSuffix` of one byte at the end.
unfoldable pub trim_last_dot : Bytes → Bytes
trim_last_dot [] = []
trim_last_dot (c ∷ []) = if eqb c b'.' then [] else c ∷ []
trim_last_dot (c ∷ d ∷ text) = c ∷ trim_last_dot (d ∷ text)

values-set : (key value : Bytes) (header : Header) → values key (set key value header) ≡ value ∷ []
unfolding values set
values-set key value header =
    let found : lookup key (insert key (value ∷ []) header) ≡ some (value ∷ []) =
      lookup-insert key key (value ∷ []) header ∙ ground arith in
    ap values_or_none found

module _ (spelling : Spelling) (urls : Urls) where
  -- The name of a service inside the cluster.
  unfoldable pub is_internal : Bytes → Bool
  is_internal host =
      let name = spelling.to_lower (trim_last_dot (urls.hostname_of host)) in
      has_suffix (bytes ".svc") name || has_suffix (bytes ".svc.cluster.local") name

  unfoldable pub is_web_scheme : Bytes → Bool
  is_web_scheme scheme =
      scheme == []
      || spelling.equal_fold scheme (bytes "http")
      || spelling.equal_fold scheme (bytes "https")

  -- The URL of the router itself in place of the upstream's.
  abbrev pub outside : Bytes → Url → Bytes
  outside external_host url =
      urls.print (record url { scheme = bytes "https"; host = external_host })

  unfoldable pub rewrite_url : Bytes → HttpServiceTarget → Url → Header → Result String Header
  rewrite_url external_host target url header =
      if url.has_user || not (url.opaque == [])
      then err "invalid upstream redirect"
      else if not (is_web_scheme url.scheme)
      then err "invalid upstream redirect"
      else if url.host == []
      then (if not (url.scheme == []) then err "invalid upstream redirect" else ok header)
      else if matches_authority spelling.equal_fold target url.host
      then ok (set location_key (outside external_host url) header)
      else if is_internal url.host
      then err "upstream redirect exposed an internal service"
      else ok header

  unfoldable pub rewrite_one : Bytes → HttpServiceTarget → Bytes → Header → Result String Header
  rewrite_one external_host target location header =
      if location == [] then err "ambiguous upstream redirect" else elim (urls.parse location) [
        | none ↦ err "invalid upstream redirect"
        | some url ↦ rewrite_url external_host target url header
      ]

  abbrev pub rewrite_values : Bytes → HttpServiceTarget → List Bytes → Header → Result String Header
  rewrite_values external_host target [] header = ok header
  rewrite_values external_host target (location ∷ []) header =
      rewrite_one external_host target location header
  rewrite_values external_host target (location ∷ second ∷ more) header =
      err "ambiguous upstream redirect"

  -- `rewriteLocation`
  unfoldable pub rewrite_location : Header → Bytes → HttpServiceTarget → Result String Header
  rewrite_location header external_host target =
      rewrite_values external_host target (values location_key header) header

  -- The name that a host has in the cluster's DNS.
  abbrev pub service_name : Bytes → Bytes
  service_name host = spelling.to_lower (trim_last_dot (urls.hostname_of host))

  -- A place that a browser may be sent to: a path at the router, another host with a name that does not
  -- end like that of a service, or the router itself in place of the upstream.
  pub data IsPublic (external_host : Bytes) : List Bytes → Type 0 where
    nowhere : IsPublic external_host []
    here :
        (location : Bytes) (url : Url)
        → urls.parse location ≡ some url
        → url.host ≡ []
        → url.scheme ≡ []
        → IsPublic external_host (location ∷ [])
    elsewhere :
        (location : Bytes) (url : Url)
        → urls.parse location ≡ some url
        → has_suffix (bytes ".svc") (service_name url.host) ≡ false
        → has_suffix (bytes ".svc.cluster.local") (service_name url.host) ≡ false
        → is_web_scheme url.scheme ≡ true
        → IsPublic external_host (location ∷ [])
    back : (url : Url) → IsPublic external_host (outside external_host url ∷ [])

  rewrite_url-IsPublic :
      (external_host : Bytes) (target : HttpServiceTarget) (location : Bytes) (url : Url)
      (header out : Header)
      → urls.parse location ≡ some url
      → values location_key header ≡ location ∷ []
      → rewrite_url external_host target url header ≡ ok out
      → IsPublic external_host (values location_key out)
  unfolding rewrite_url is_internal
  rewrite_url-IsPublic external_host target location url header out parsed only h =
      let unchanged = λ (e : header ≡ out) (p : IsPublic external_host (location ∷ [])).
        subst (IsPublic external_host) (sym only ∙ ap (values location_key) e) p in
      elim (Bool-cases (url.has_user || not (url.opaque == []))) [
        | inl a ↦ absurd (ground (arith, h, a))
        | inr a ↦ elim (Bool-cases (is_web_scheme url.scheme)) [
          | inr b ↦ absurd (ground (arith, h, a, b))
          | inl b ↦ elim (Bool-cases (url.host == [])) [
            | inl c ↦ elim (Bool-cases (url.scheme == [])) [
              | inl d ↦
                  unchanged (ground (arith, h, a, b, c, d))
                    (here location url parsed (ground (arith, c)) (ground (arith, d)))
              | inr d ↦ absurd (ground (arith, h, a, b, c, d))
            ]
            | inr c ↦ elim (Bool-cases (matches_authority spelling.equal_fold target url.host)) [
              | inl d ↦
                  let moved : set location_key (outside external_host url) header ≡ out =
                    ground (arith, h, a, b, c, d) in
                  subst (IsPublic external_host)
                    (sym (values-set location_key (outside external_host url) header)
                      ∙ ap (values location_key) moved)
                    (back url)
              | inr d ↦ elim (Bool-cases (is_internal url.host)) [
                | inl g ↦ absurd (ground (arith, h, a, b, c, d, g))
                | inr g ↦
                    unchanged (ground (arith, h, a, b, c, d, g))
                      (elsewhere location url parsed (ground (arith, g)) (ground (arith, g)) b)
              ]
            ]
          ]
        ]
      ]

  rewrite_values-IsPublic :
      (external_host : Bytes) (target : HttpServiceTarget) (found : List Bytes)
      (header out : Header)
      → values location_key header ≡ found
      → rewrite_values external_host target found header ≡ ok out
      → IsPublic external_host (values location_key out)
  unfolding rewrite_one
  rewrite_values-IsPublic external_host target [] header out e h =
      subst (IsPublic external_host) (sym e ∙ ap (values location_key) (ground (arith, h))) nowhere
  rewrite_values-IsPublic external_host target (location ∷ []) header out e h =
      elim (Option-cases (urls.parse location)) [
        | inl p ↦ absurd (ground (arith, h, p))
        | inr (url, p) ↦
            rewrite_url-IsPublic external_host target location url header out p e
              (ground (arith, h, p))
      ]
  rewrite_values-IsPublic external_host target (location ∷ second ∷ more) header out e h =
      absurd (ground (arith, h))

  -- A redirect that is passed on leads to a path at the router, to the router in place of the upstream,
  -- or to a web address whose host's name, in lower case and without its last dot, ends neither in `.svc`
  -- nor in `.svc.cluster.local`, whatever the upstream sent. Other names and addresses of the cluster's
  -- network are not excluded.
  pub rewrite_location-IsPublic :
      (header out : Header) (external_host : Bytes) (target : HttpServiceTarget)
      → rewrite_location header external_host target ≡ ok out
      → IsPublic external_host (values location_key out)
  unfolding rewrite_location
  rewrite_location-IsPublic header out external_host target h =
      rewrite_values-IsPublic external_host target (values location_key header) header out refl h
