-- ===== src/Workload/Router/Serving.antt =====
-- apps/workload-router/internal/router/router.go, `ServeHTTP`: what becomes of a request.
pub mod Access
pub mod Slots
use agent_sandbox_platform.Base.{
  ℕ, Bool, true, false, not, ◌&&◌, ◌||◌, Option, none, some, [], ◌∷◌, Bytes, ◌==◌, bytes_eq, ltb,
  length, if◌then◌else◌,
}
use agent_sandbox_platform.Base.Int.{ℤ, ltb_ℤ}
use agent_sandbox_platform.Base.Result.{Result, ok, err}
use agent_sandbox_platform.Base.Text.{bytes}
use agent_sandbox_platform.Workload.Host.{canonical_host}
use agent_sandbox_platform.Workload.Headers.{Header, values, get, cookie_key, forwarded_header}
use agent_sandbox_platform.Workload.Registry.{
  AuthError, unauthorized, connection_limit, failed, Exposure, Registry, ref_for,
}
use agent_sandbox_platform.Workload.Registry.Sections.{
  Slot, TrackedConn, acquire, release, track_connection, close_conn,
}
use agent_sandbox_platform.Workload.Registry.Methods.{lookup_host, authenticate, exchange}
use agent_sandbox_platform.Workload.Resolver.{HttpServiceTarget, is_valid}
use agent_sandbox_platform.Workload.Router.{
  Environment, Request, Response, Handler, bootstrap_path, bootstrap, write_plain, is_get_or_head,
  session_response, session_credential, is_web_socket, valid_web_socket_origin,
}

-- What else happens while one request is served: the readings of the clock, in their order, whether
-- the read deadline can be set, and what other goroutines do to the registry between its calls of it.
pub record Course : Type 0 where
  pub found_at : ℕ
  pub has_deadline : Bool
  pub before_session : Registry → Registry
  pub session_found_at : ℕ
  pub session_checked_at : ℕ
  pub session_stored_at : ℕ
  pub answered_at : ℕ
  pub before_acquire : Registry → Registry
  pub acquired_at : ℕ
  pub while_proxied : Registry → Registry

pub data Answer : Type 0 where
  answers : Response → Answer
  -- The proxy's request to the upstream: for an exposure, to a target, with some headers.
  forwards : Exposure → HttpServiceTarget → Header → Answer

abbrev pub plain : ℕ → Bytes → Answer
plain status message = answers (write_plain status message)

abbrev pub authorization_required : Answer
authorization_required = plain 401 (bytes "authorization required")

abbrev pub authorization_failed : Answer
authorization_failed = plain 401 (bytes "authorization failed")

abbrev pub acquire_failure : AuthError → Answer
acquire_failure connection_limit = plain 429 (bytes "connection limit reached")
acquire_failure unauthorized = authorization_required
acquire_failure (failed message) = authorization_required

-- A dial for a request, whose context has an exposure; without one the connection is closed.
unfoldable pub dial : ℕ → Option Exposure → ℕ → Registry → Result AuthError TrackedConn × Registry
dial now none conn r = (err (failed "missing trusted exposure context"), close_conn conn r)
dial now (some exposure) conn r =
    let tracked = track_connection now exposure conn r in
    if exposure.id == []
    then (err (failed "missing trusted exposure context"), close_conn conn r)
    else tracked

module _ (env : Environment) (handler : Handler) (resolve : Bytes → Option HttpServiceTarget)
    (course : Course) where
  -- `exchange`
  unfoldable pub exchange_session : Request → Bytes → Registry → Answer × Registry
  exchange_session request host r =
      let made =
        exchange env.packages course.session_found_at course.session_checked_at
          course.session_stored_at host request.body r in
      elim (env.media_type (get (bytes "Content-Type") request.header)) [
        | none ↦ (authorization_failed, r)
        | some media ↦
            if not (media == bytes "text/plain")
            then (authorization_failed, r)
            else if request.is_broken || ltb 1024 (length request.body)
            then (authorization_failed, r)
            else elim made.0 [
              | err e ↦ (authorization_failed, made.1)
              | ok issued ↦
                  (answers (session_response course.answered_at issued.0 issued.1), made.1)
            ]
      ]

  -- `ServeHTTP` once a slot is taken, up to the proxy.
  unfoldable pub forward : Request → Exposure → Answer
  forward request exposure = elim (resolve exposure.id) [
    | none ↦ plain 502 (bytes "upstream unavailable")
    | some target ↦
        if not (is_valid env.is_dns1123_label target)
        then plain 502 (bytes "upstream unavailable")
        else forwards exposure target (forwarded_header env.spelling (env.outgoing request.header))
  ]

  -- `ServeHTTP` from the authenticated exposure on. The slot is released when the proxy has returned.
  unfoldable pub serve_exposure : Bool → Request → Exposure → Registry → Answer × Registry
  serve_exposure websocket request exposure r =
      let taken = acquire course.acquired_at exposure r in
      if websocket && not exposure.allow_web_socket
      then (plain 403 (bytes "websocket disabled"), r)
      else if ltb_ℤ handler.body_limit request.content_length
      then (plain 413 (bytes "request too large"), r)
      else elim taken.0 [
        | err e ↦ (acquire_failure e, taken.1)
        | ok slot ↦ (forward request exposure, (release slot (course.while_proxied taken.1)).1)
      ]

  -- The answer to a request that has no session.
  unfoldable pub ask_for_session : Bool → Request → Answer
  ask_for_session websocket request =
      if websocket || not (is_get_or_head request.method)
      then authorization_required
      else answers (bootstrap handler request.method)

  -- `ServeHTTP` from the session's cookie on.
  unfoldable pub serve_session :
      Bool → Request → Bytes → Option Bytes → Registry → Answer × Registry
  serve_session websocket request host none r = (ask_for_session websocket request, r)
  serve_session websocket request host (some session) r =
      let found =
        authenticate env.packages course.session_found_at course.session_checked_at host session
          (course.before_session r) in
      elim found.0 [
        | err e ↦ (ask_for_session websocket request, found.1)
        | ok exposure ↦ serve_exposure websocket request exposure (course.before_acquire found.1)
      ]

  -- `ServeHTTP` for a host that has an exposure.
  unfoldable pub serve_host : Bool → Request → Bytes → Registry → Answer × Registry
  serve_host websocket request host r =
      if websocket
        && not (valid_web_socket_origin env (values (bytes "Origin") request.header) host)
      then (plain 403 (bytes "invalid websocket origin"), r)
      else if not websocket && request.has_body && not course.has_deadline
      then (plain 503 (bytes "request body unavailable"), r)
      else if request.path == bootstrap_path
      then (if not (request.method == bytes "POST")
          then (plain 405 (bytes "method not allowed"), r)
          else exchange_session request host (course.before_session r))
      else serve_session websocket request host
          (session_credential (env.cookies (values cookie_key request.header))) r

  -- `ServeHTTP`
  unfoldable pub serve : Request → Registry → Answer × Registry
  serve request r = elim (canonical_host env.packages request.host) [
    | err message ↦ (plain 404 (bytes "not found"), r)
    | ok host ↦
        let looked = lookup_host env.packages course.found_at host r in
        elim looked.0 [
          | err e ↦ (plain 404 (bytes "not found"), looked.1)
          | ok exposure ↦ serve_host (is_web_socket env request) request host looked.1
        ]
  ]
