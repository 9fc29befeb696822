-- ===== src/Workload/Examples.antt =====
-- apps/workload-router: the theorems on requests and their headers at concrete ones, with small
-- functions in place of the other packages.
use agent_sandbox_platform.Base.{
  arith, inl, inr, ◌+◌, refl, true, false, ◌&&◌, Option, none, some, List, [], ◌∷◌, ◌++◌, Bytes,
  ◌==◌, bytes_eq, nat_eq, leb, map, drop, if◌then◌else◌,
}
use agent_sandbox_platform.Base.Int.{pos}
use agent_sandbox_platform.Base.Result.{Result, ok, err}
use agent_sandbox_platform.Base.Dict.{lookup, insert, erase}
use agent_sandbox_platform.Base.Text.{
  bytes, trim_space, has_suffix, has_prefix, contains_any, split, cons_first, join,
}
use agent_sandbox_platform.Codec.Base64
use agent_sandbox_platform.Codec.Decimal.{format_decimal}
use agent_sandbox_platform.Workload.Host.{canonical_host}
use agent_sandbox_platform.Workload.Headers.{
  Header, Spelling, values, get, set, before, session_cookie_name, strip_session_cookie,
  strip_names, strip_sensitive_request_headers, is_sensitive, kept_pairs, kept_parts,
  is_other_cookie, forwarded_header, strip_reserved_response_headers,
}
use agent_sandbox_platform.Workload.Headers.Stripping.{
  IsCredential, IsClean, forwarded_header-IsClean,
}
use agent_sandbox_platform.Workload.Headers.Responses.{IsGuarded, strip_reserved-IsGuarded}
use agent_sandbox_platform.Workload.Redirects.{
  Url, Urls, IsPublic, rewrite_location, rewrite_one, rewrite_url, is_web_scheme, location_key,
  rewrite_location-IsPublic,
}
use agent_sandbox_platform.Workload.Registry.{
  AuthError, Exposure, ExposureState, Registry, ref_for, ref_eq, valid_credential_shape, or_zero,
}
use agent_sandbox_platform.Workload.Registry.Sections.{
  TrackedConn, track_connection, close_tracked, acquire, lookup_section, lookup_state,
  authenticate_section,
}
use agent_sandbox_platform.Workload.Registry.Methods.{lookup_host, authenticate}
use agent_sandbox_platform.Workload.Resolver.{
  HttpServiceTarget, is_valid, new_http_service_target, matches_authority, authority,
  join_host_port,
}
use agent_sandbox_platform.Workload.Router.{
  Environment, Request, Handler, session_credential, count_sessions, is_web_socket,
  header_has_token,
}
use agent_sandbox_platform.Workload.Router.Serving.{
  Course, dial, serve, serve_host, serve_session, serve_exposure, forward,
}
use agent_sandbox_platform.Workload.Router.Serving.Access.{
  IsAllowed, IsServed, at_slot, serve-IsAllowed,
}
use agent_sandbox_platform.Workload.Router.Serving.Slots.{
  SameExposures, serve_exposure-SameExposures,
}

abbrev lower : Bytes → Bytes
lower text = map (λ c. if leb 65 c && leb c 90 then c + 32 else c) text

abbrev spelling : Spelling
spelling = record {
  to_lower = lower;
  equal_fold = λ a b. lower a == lower b;
  canonical_key = λ key. key;
}

abbrev token : Bytes
token = bytes "QkJCQkJCQkJCQkJCQkJCQkJCQkJCQkJCQkJCQkJCQkI"

abbrev header : Header
header =
    (bytes "Accept", bytes "text/html" ∷ [])
    ∷ (bytes "Authorization", bytes "Basic x" ∷ [])
    ∷ (bytes "Cookie", (bytes "__Host-asp_session=" ++ token) ∷ bytes "a=1; b=2" ∷ [])
    ∷ []

cookie_plain : IsCredential spelling (bytes "Cookie") → ⊥
unfolding has_prefix
cookie_plain (inl e) = ground (arith, e)
cookie_plain (inr (inl e)) = ground (arith, e)
cookie_plain (inr (inr e)) = ground (arith, e)

forwarded_header-IsClean_example : IsClean spelling header (forwarded_header spelling header)
forwarded_header-IsClean_example =
    forwarded_header-IsClean spelling header (refl, (refl, (refl, tt))) cookie_plain

abbrev response_header : Header
response_header =
    (bytes "Set-Cookie", bytes "__host-asp_session=x" ∷ bytes "a=1" ∷ [])
    ∷ (bytes "Clear-Site-Data", bytes "\"*\"" ∷ [])
    ∷ []

strip_reserved-IsGuarded_example :
    IsGuarded spelling response_header (strip_reserved_response_headers spelling response_header)
strip_reserved-IsGuarded_example = strip_reserved-IsGuarded spelling response_header

-- Every text is a web address of the one host that it is.
abbrev url_of : Bytes → Url
url_of host = record {
  scheme = bytes "http";
  opaque = [];
  has_user = false;
  host = host;
  path = [];
  raw_path = [];
  raw_query = [];
  force_query = false;
  fragment = [];
}

abbrev urls : Urls
urls = record {
  parse = λ text. some (url_of text);
  print = λ url. url.host;
  hostname_of = λ host. host;
  query_escape = λ text. text;
}

abbrev target : HttpServiceTarget
target = record { service = bytes "web"; namespace = bytes "apps"; port = 80 }

abbrev redirect : Header
redirect = (location_key, bytes "web.apps.svc" ∷ []) ∷ []

rewrite_location-IsPublic_example :
    IsPublic spelling urls
      (bytes "app.example")
      (values location_key ((location_key, bytes "app.example" ∷ []) ∷ []))
unfolding rewrite_location rewrite_one rewrite_url is_web_scheme matches_authority authority
    join_host_port format_decimal values set lookup insert bytes_eq
rewrite_location-IsPublic_example =
    rewrite_location-IsPublic spelling urls redirect ((location_key, bytes "app.example" ∷ []) ∷ [])
      (bytes "app.example") target refl

-- The cookies, as far as the first value is the session's.
abbrev cookies_of : List Bytes → List (Bytes × Bytes)
cookies_of [] = []
cookies_of (value ∷ more) = (session_cookie_name, drop 19 value) ∷ []

abbrev environment : Environment
environment = record {
  packages = record {
    to_lower = lower;
    is_ip_address = λ s. false;
    is_dns1123_subdomain = λ s. true;
    sha256 = λ s. s;
  };
  spelling = spelling;
  urls = urls;
  cookies = cookies_of;
  media_type = λ text. some text;
  is_dns1123_label = λ s. true;
  outgoing = erase (bytes "Forwarded");
}

abbrev handler : Handler
handler = record { body_limit = pos 100; csp = [] }

abbrev course : Course
course = record {
  found_at = 10;
  has_deadline = true;
  before_session = λ r. r;
  session_found_at = 11;
  session_checked_at = 12;
  session_stored_at = 13;
  answered_at = 14;
  before_acquire = λ r. r;
  acquired_at = 15;
  while_proxied = λ r. r;
}

abbrev exposure : Exposure
exposure = record {
  id = bytes "e1";
  host = bytes "app.example";
  expires_at = 500;
  allow_web_socket = false;
  max_connections = pos 2;
  generation = 1;
}

abbrev state : ExposureState
state = record { exposure = exposure; active = 0; timer = some 500; conns = [] }

abbrev registry : Registry
registry = record {
  random = [];
  session_ttl = 100;
  bootstrap_ttl = 50;
  events = none;
  closed = false;
  next_gen = 1;
  exposures = (bytes "e1", state) ∷ [];
  hosts = (bytes "app.example", ref_for exposure) ∷ [];
  capabilities = [];
  sessions = (token, record { exposure = ref_for exposure; expires_at = 100 }) ∷ [];
  closed_conns = [];
}

abbrev page : Request
page = record {
  host = bytes "App.example";
  method = bytes "GET";
  path = bytes "/";
  header = (bytes "Cookie", (bytes "__Host-asp_session=" ++ token) ∷ []) ∷ [];
  has_body = false;
  content_length = pos 0;
  body = [];
  is_broken = false;
}

abbrev resolve : Bytes → Option HttpServiceTarget
resolve id = some target

serve-IsAllowed_example :
    (a : IsAllowed environment handler resolve course registry page exposure) × IsServed environment
      handler resolve course
      (at_slot environment handler resolve course registry a.host a.session)
      page
      exposure
      target
      []
unfolding serve canonical_host lookup_host lookup_section lookup_state or_zero is_web_socket
    header_has_token serve_host session_credential count_sessions serve_session authenticate
    valid_credential_shape authenticate_section serve_exposure acquire forward is_valid
    new_http_service_target forwarded_header strip_sensitive_request_headers strip_names
    is_sensitive strip_session_cookie kept_pairs kept_parts is_other_cookie before values get lookup
    insert erase bytes_eq nat_eq ref_eq trim_space has_suffix has_prefix contains_any split
    cons_first join Base64.decode Base64.encode
serve-IsAllowed_example =
    serve-IsAllowed environment handler resolve course page registry exposure target [] refl

-- The connection of a request to its upstream, which is tracked and closed.
abbrev connected : Result AuthError TrackedConn → Registry → Registry
connected (err e) r = r
connected (ok tracked) r = (close_tracked tracked r).1

abbrev connect : Registry → Registry
connect r = let dialled = dial 16 (some exposure) 7 r in connected dialled.0 dialled.1

abbrev connecting : Course
connecting = record course { while_proxied = connect }

connected_slots :
    SameExposures ((acquire 15 exposure registry).1) (connect ((acquire 15 exposure registry).1))
unfolding acquire dial track_connection close_tracked lookup insert bytes_eq
connected_slots id = ground arith

serve_exposure-SameExposures_example :
    SameExposures registry
      ((serve_exposure environment handler resolve connecting false page exposure registry).1)
serve_exposure-SameExposures_example =
    serve_exposure-SameExposures environment handler resolve connecting false page exposure registry
      connected_slots
