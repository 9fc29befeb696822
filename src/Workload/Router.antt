-- ===== src/Workload/Router.antt =====
-- apps/workload-router/internal/router/router.go: what the router reads of a request, and the answers it
-- gives itself.
pub mod Serving
use agent_sandbox_platform.Base.{
  ℕ, suc, ◌+◌, ◌-◌, ◌*◌, ◌/◌, Bool, true, false, not, ◌&&◌, ◌||◌, Option, none, some, List, [], ◌∷◌,
  ◌++◌, String, Bytes, ◌==◌, bytes_eq, eqb, ltb, length, if◌then◌else◌,
}
use agent_sandbox_platform.Base.Int.{ℤ, pos, leb_ℤ}
use agent_sandbox_platform.Base.Result.{Result, ok, err}
use agent_sandbox_platform.Base.Text.{bytes, trim_space, split}
use agent_sandbox_platform.Codec.Base64.{encode_std}
use agent_sandbox_platform.Workload.Host.{Packages, canonical_host}
use agent_sandbox_platform.Workload.Headers.{
  Header, Spelling, values, get, set, session_cookie_name, strip_reserved_response_headers,
}
use agent_sandbox_platform.Workload.Redirects.{Url, Urls, rewrite_location}
use agent_sandbox_platform.Workload.Resolver.{HttpServiceTarget}

-- What is called of other packages besides: `Request.Cookies`, on the values of `Cookie`, as names and
-- values, `mime.ParseMediaType`, and `validation.IsDNS1123Label`.
pub record Environment : Type 0 where
  pub packages : Packages
  pub spelling : Spelling
  pub urls : Urls
  pub cookies : List Bytes → List (Bytes × Bytes)
  pub media_type : Bytes → Option Bytes
  pub is_dns1123_label : Bytes → Bool
  -- The header of the request that `httputil.ReverseProxy` makes of one, as it stands before `Rewrite`: it
  -- drops those of the hop, `Forwarded` and `X-Forwarded-*`.
  pub outgoing : Header → Header

-- `has_body` says that the body is not nil and not `NoBody`, `is_broken` that reading it fails.
pub record Request : Type 0 where
  pub host : Bytes
  pub method : Bytes
  pub path : Bytes
  pub header : Header
  pub has_body : Bool
  pub content_length : ℤ
  pub body : Bytes
  pub is_broken : Bool

-- The fields of `http.Cookie` that are set; the path is `/`, and it is secure, for HTTP alone, and of
-- the same site.
pub record SessionCookie : Type 0 where
  pub name : Bytes
  pub value : Bytes
  pub expires : ℕ
  pub max_age : ℕ

pub record Response : Type 0 where
  pub status : ℕ
  pub header : Header
  pub cookie : Option SessionCookie
  pub body : Bytes

pub record Handler : Type 0 where
  pub body_limit : ℤ
  pub csp : Bytes

abbrev pub bootstrap_path : Bytes
bootstrap_path = bytes "/_asp/bootstrap"

abbrev pub default_body_limit : ℤ
default_body_limit = pos (16 * 1024 * 1024)

abbrev pub bootstrap_script : Bytes
bootstrap_script =
    bytes
      "(()=>{const p=new URLSearchParams(location.hash.slice(1));const c=p.get(\"asp\");if(!c){document.body.textContent=\"Authorization required\";return}fetch(\"/_asp/bootstrap\",{method:\"POST\",headers:{\"Content-Type\":\"text/plain\"},body:c,credentials:\"same-origin\",cache:\"no-store\",redirect:\"error\"}).then(r=>{if(!r.ok)throw new Error(\"denied\");location.replace(\"/\")}).catch(()=>{document.body.textContent=\"Authorization failed\"})})();"

-- The dots after "Authorizing" are one character of three bytes.
abbrev pub bootstrap_html : Bytes
bootstrap_html =
    bytes
      "<!doctype html><html><head><meta charset=\"utf-8\"><meta name=\"viewport\" content=\"width=device-width\"><title>Opening workload</title></head><body>Authorizing"
    ++ (0xe2 ∷ 0x80 ∷ 0xa6 ∷ [])
    ++ bytes "<script>"
    ++ bootstrap_script
    ++ bytes "</script></body></html>"

-- `setSecurityHeaders`
unfoldable pub set_security_headers : Header → Header
set_security_headers header = set (bytes "X-Frame-Options") (bytes "DENY") (
    set (bytes "Permissions-Policy") (bytes "camera=(), microphone=(), geolocation=()") (
      set (bytes "Referrer-Policy") (bytes "no-referrer")
        (set (bytes "X-Content-Type-Options") (bytes "nosniff") header)))

-- `writePlain`
unfoldable pub write_plain : ℕ → Bytes → Response
write_plain status message = record {
  status = status;
  header =
      set (bytes "Cache-Control") (bytes "no-store")
        (set (bytes "Content-Type") (bytes "text/plain; charset=utf-8") []);
  cookie = none;
  body = message ++ (10 ∷ []);
}

abbrev pub is_get_or_head : Bytes → Bool
is_get_or_head method = method == bytes "GET" || method == bytes "HEAD"

-- `bootstrap`
unfoldable pub bootstrap : Handler → Bytes → Response
bootstrap handler method = record {
  status = 200;
  header = set (bytes "Cache-Control") (bytes "no-store") (
      set (bytes "Content-Type") (bytes "text/html; charset=utf-8")
        (set (bytes "Content-Security-Policy") handler.csp (set_security_headers [])));
  cookie = none;
  body = if method == bytes "HEAD" then [] else bootstrap_html;
}

-- The cookie of a new session, and the answer that sets it, at the time `now`.
unfoldable pub session_response : ℕ → Bytes → ℕ → Response
session_response now session expires_at =
    let left = (expires_at - now) / 1000000000 in
    record {
      status = 204;
      header = set (bytes "Cache-Control") (bytes "no-store") (set_security_headers []);
      cookie = some (record {
        name = session_cookie_name;
        value = session;
        expires = expires_at;
        max_age = if ltb left 1 then 1 else left;
      });
      body = [];
    }

-- The loop of `sessionCredential`: the last value, and how many there are.
unfoldable pub count_sessions : List (Bytes × Bytes) → Bytes → ℕ → Bytes × ℕ
count_sessions [] value count = (value, count)
count_sessions ((name, cookie) ∷ cookies) value count =
    if name == session_cookie_name
    then count_sessions cookies cookie (count + 1)
    else count_sessions cookies value count

-- `sessionCredential`, of the cookies that were read.
unfoldable pub session_credential : List (Bytes × Bytes) → Option Bytes
session_credential cookies =
    let counted = count_sessions cookies [] 0 in if eqb counted.1 1 then some counted.0 else none

module _ (env : Environment) where
  -- `New`: the limit on bodies and the policy of the page.
  unfoldable pub new_handler : ℤ → Handler
  new_handler body_limit = record {
    body_limit = if leb_ℤ body_limit (pos 0) then default_body_limit else body_limit;
    csp =
        bytes "default-src 'none'; script-src 'sha256-"
        ++ (encode_std (env.packages.sha256 bootstrap_script)
            ++ bytes
                "'; connect-src 'self'; base-uri 'none'; form-action 'none'; frame-ancestors 'none'");
  }

  unfoldable pub parts_have_token : List Bytes → Bytes → Bool
  parts_have_token [] wanted = false
  parts_have_token (part ∷ parts) wanted =
      let rest = parts_have_token parts wanted in
      if env.spelling.equal_fold (trim_space part) wanted then true else rest

  -- `headerHasToken`
  unfoldable pub header_has_token : List Bytes → Bytes → Bool
  header_has_token [] wanted = false
  header_has_token (value ∷ more) wanted =
      let rest = header_has_token more wanted in
      if parts_have_token (split b',' value) wanted then true else rest

  -- `isWebSocket`
  unfoldable pub is_web_socket : Request → Bool
  is_web_socket request =
      header_has_token (values (bytes "Connection") request.header) (bytes "upgrade")
      && env.spelling.equal_fold (get (bytes "Upgrade") request.header) (bytes "websocket")

  -- An origin is a scheme and a host, and no more.
  unfoldable pub is_bare_origin : Url → Bool
  is_bare_origin url =
      env.spelling.equal_fold url.scheme (bytes "https")
      && not url.has_user
      && not (url.host == [])
      && url.path == []
      && url.raw_path == []
      && url.raw_query == []
      && not url.force_query
      && url.fragment == []

  abbrev pub is_same_host : Result String Bytes → Bytes → Bool
  is_same_host (err message) host = false
  is_same_host (ok found) host = found == host

  -- `validWebSocketOrigin`, of the values of `Origin`.
  unfoldable pub valid_web_socket_origin : List Bytes → Bytes → Bool
  valid_web_socket_origin [] host = false
  valid_web_socket_origin (value ∷ []) host = elim (env.urls.parse value) [
    | none ↦ false
    | some url ↦
        if is_bare_origin url
        then is_same_host (canonical_host env.packages url.host) host
        else false
  ]
  valid_web_socket_origin (value ∷ second ∷ more) host = false

  -- `ModifyResponse` and `ErrorHandler` of the proxy, on the headers of an upstream's response.
  unfoldable pub modify_response : Request → HttpServiceTarget → Header → Result Response Header
  modify_response request target header =
      elim (rewrite_location env.spelling env.urls
        (strip_reserved_response_headers env.spelling header) request.host target) [
          | err message ↦ err (write_plain 502 (bytes "upstream unavailable"))
          | ok out ↦ ok out
        ]

  -- `BootstrapURL`
  unfoldable pub bootstrap_url : Bytes → Bytes → Result String Bytes
  bootstrap_url host capability = elim (canonical_host env.packages host) [
    | err message ↦ err message
    | ok canonical ↦
        if not (eqb (length capability) 43)
        then err "invalid bootstrap capability"
        else ok (
            bytes "https://" ++ (canonical ++ (bytes "/#asp=" ++ env.urls.query_escape capability)))
  ]
