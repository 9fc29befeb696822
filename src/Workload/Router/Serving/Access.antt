-- ===== src/Workload/Router/Serving/Access.antt =====
-- apps/workload-router/internal/router/router.go, `ServeHTTP`: which requests reach an upstream.
use agent_sandbox_platform.Base.{
  Bool, true, false, not, ◌&&◌, Option, none, some, Bytes, ◌==◌, bytes_eq, ◌≡◌, refl, sym, ◌∙◌, ap,
  arith, Option-cases, Bool-cases, inl, inr,
}
use agent_sandbox_platform.Base.Int.{ltb_ℤ}
use agent_sandbox_platform.Base.Result.{ok, Result-cases}
use agent_sandbox_platform.Base.Text.{bytes}
use agent_sandbox_platform.Workload.Host.{canonical_host}
use agent_sandbox_platform.Workload.Headers.{Header, values, cookie_key, forwarded_header}
use agent_sandbox_platform.Workload.Registry.{
  AuthError, unauthorized, connection_limit, failed, Exposure, Registry,
}
use agent_sandbox_platform.Workload.Registry.Sections.{Slot, acquire}
use agent_sandbox_platform.Workload.Registry.Methods.{lookup_host, authenticate}
use agent_sandbox_platform.Workload.Resolver.{HttpServiceTarget, is_valid}
use agent_sandbox_platform.Workload.Router.{
  Environment, Request, Handler, bootstrap_path, session_credential, is_web_socket,
  valid_web_socket_origin,
}
use agent_sandbox_platform.Workload.Router.Serving.{
  Course, forwards, acquire_failure, exchange_session, forward, serve_exposure, ask_for_session,
  serve_session, serve_host, serve,
}

module _ (env : Environment) (handler : Handler) (resolve : Bytes → Option HttpServiceTarget)
    (course : Course) where
  -- Why a request may be forwarded for an exposure.
  pub record IsServed (at_acquire : Registry) (request : Request) (e : Exposure)
      (target : HttpServiceTarget) (out : Header) : Type 0 where
    pub slot : Slot
    pub counted : (acquire course.acquired_at e at_acquire).0 ≡ ok slot
    pub small : ltb_ℤ handler.body_limit request.content_length ≡ false
    pub resolved : resolve e.id ≡ some target
    pub constrained : is_valid env.is_dns1123_label target ≡ true
    pub stripped : out ≡ forwarded_header env.spelling (env.outgoing request.header)

  -- The registry when the session is looked up: as the lookup of the host left it, after what other
  -- goroutines did.
  abbrev pub at_session : Registry → Bytes → Registry
  at_session r host = course.before_session (lookup_host env.packages course.found_at host r).1

  -- The registry when the slot is taken: as the lookup of the session left it, after what other
  -- goroutines did.
  abbrev pub at_slot : Registry → Bytes → Bytes → Registry
  at_slot r host session = course.before_acquire (
      (authenticate env.packages course.session_found_at course.session_checked_at host session
        (at_session r host)).1)

  pub record IsAllowed (r : Registry) (request : Request) (e : Exposure) : Type 0 where
    pub host : Bytes
    pub session : Bytes
    pub canonical : canonical_host env.packages request.host ≡ ok host
    pub presented :
        session_credential (env.cookies (values cookie_key request.header)) ≡ some session
    pub authentic :
        (authenticate env.packages course.session_found_at course.session_checked_at host session
          (at_session r host)).0
        ≡ ok e
    pub proxied : (request.path == bootstrap_path) ≡ false
    pub upgraded :
        is_web_socket env request ≡ true
        → (valid_web_socket_origin env (values (bytes "Origin") request.header) host ≡ true)
          × (e.allow_web_socket ≡ true)

  forward-forwards :
      (request : Request) (exposure e : Exposure) (target : HttpServiceTarget) (out : Header)
      → forward env handler resolve course request exposure ≡ forwards e target out
      → (exposure ≡ e)
        × (resolve e.id ≡ some target)
        × (is_valid env.is_dns1123_label target ≡ true)
        × (out ≡ forwarded_header env.spelling (env.outgoing request.header))
  unfolding forward
  forward-forwards request exposure e target out h = elim (Option-cases (resolve exposure.id)) [
    | inl p ↦ absurd (ground (arith, h, p))
    | inr (t, p) ↦ elim (Bool-cases (is_valid env.is_dns1123_label t)) [
      | inr v ↦ absurd (ground (arith, h, p, v))
      | inl v ↦
          let same : exposure ≡ e = ground (arith, h, p, v) in
          let found : t ≡ target = ground (arith, h, p, v) in
          (
            same,
            ap (λ (x : Exposure). resolve x.id) (sym same) ∙ p ∙ ap some found,
            ap (is_valid env.is_dns1123_label) (sym found) ∙ v,
            ground (arith, h, p, v),
          )
    ]
  ]

  acquire_failure-answers :
      (x : AuthError) (e : Exposure) (target : HttpServiceTarget) (out : Header)
      → acquire_failure x ≡ forwards e target out
      → ⊥
  acquire_failure-answers unauthorized e target out h = ground (arith, h)
  acquire_failure-answers connection_limit e target out h = ground (arith, h)
  acquire_failure-answers (failed message) e target out h = ground (arith, h)

  serve_exposure-IsServed :
      (websocket : Bool) (request : Request) (exposure e : Exposure) (r : Registry)
      (target : HttpServiceTarget) (out : Header)
      → (serve_exposure env handler resolve course websocket request exposure r).0
        ≡ forwards e target out
      → (exposure ≡ e)
        × IsServed r request e target out
        × (websocket ≡ true → e.allow_web_socket ≡ true)
  unfolding serve_exposure
  serve_exposure-IsServed websocket request exposure e r target out h =
      elim (Bool-cases (websocket && not exposure.allow_web_socket)) [
        | inl a ↦ absurd (ground (arith, h, a))
        | inr a ↦ elim (Bool-cases (ltb_ℤ handler.body_limit request.content_length)) [
          | inl b ↦ absurd (ground (arith, h, a, b))
          | inr b ↦ elim (Result-cases ((acquire course.acquired_at exposure r).0)) [
            | inl (x, c) ↦
                absurd (acquire_failure-answers x e target out (ground (arith, h, a, b, c)))
            | inr (slot, c) ↦
                let (same, resolved, constrained, stripped) =
                  forward-forwards request exposure e target out (ground (arith, h, a, b, c)) in
                (
                  same,
                  record {
                    slot = slot;
                    counted =
                        ap (λ (x : Exposure). (acquire course.acquired_at x r).0) (sym same) ∙ c;
                    small = b;
                    resolved = resolved;
                    constrained = constrained;
                    stripped = stripped;
                  },
                  λ w. ap (λ (x : Exposure). x.allow_web_socket) (sym same) ∙ ground (arith, a, w),
                )
          ]
        ]
      ]

  ask_for_session-answers :
      (websocket : Bool) (request : Request) (e : Exposure) (target : HttpServiceTarget)
      (out : Header)
      → ask_for_session env handler resolve course websocket request ≡ forwards e target out
      → ⊥
  unfolding ask_for_session
  ask_for_session-answers websocket request e target out h = ground (arith, h)

  exchange_session-answers :
      (request : Request) (host : Bytes) (r : Registry) (e : Exposure) (target : HttpServiceTarget)
      (out : Header)
      → (exchange_session env handler resolve course request host r).0 ≡ forwards e target out
      → ⊥
  unfolding exchange_session
  exchange_session-answers request host r e target out h = ground (arith, h)

  serve_session-IsAllowed :
      (websocket : Bool) (request : Request) (host : Bytes) (presented : Option Bytes)
      (r : Registry) (e : Exposure) (target : HttpServiceTarget) (out : Header)
      → (serve_session env handler resolve course websocket request host presented r).0
        ≡ forwards e target out
      → (session : Bytes) × (presented ≡ some session)
        × ((authenticate env.packages course.session_found_at course.session_checked_at host session
              (course.before_session r)).0
            ≡ ok e)
        × IsServed
            (course.before_acquire (
              (authenticate env.packages course.session_found_at course.session_checked_at host
                session
                (course.before_session r)).1))
            request
            e
            target
            out
        × (websocket ≡ true → e.allow_web_socket ≡ true)
  unfolding serve_session
  serve_session-IsAllowed websocket request host none r e target out h =
      absurd (ask_for_session-answers websocket request e target out h)
  serve_session-IsAllowed websocket request host (some session) r e target out h =
      let found =
        authenticate env.packages course.session_found_at course.session_checked_at host session
          (course.before_session r) in
      elim (Result-cases (found.0)) [
        | inl (x, p) ↦
            absurd (ask_for_session-answers websocket request e target out (ground (arith, h, p)))
        | inr (exposure, p) ↦
            let (same, served, upgraded) =
              serve_exposure-IsServed websocket request exposure e (course.before_acquire found.1)
                target out (ground (arith, h, p)) in
            (session, refl, p ∙ ap ok same, served, upgraded)
      ]

  serve_host-IsAllowed :
      (request : Request) (host : Bytes) (r : Registry) (e : Exposure) (target : HttpServiceTarget)
      (out : Header)
      → canonical_host env.packages request.host ≡ ok host
      → (serve_host env handler resolve course
          (is_web_socket env request)
          request
          host
          ((lookup_host env.packages course.found_at host r).1)).0
        ≡ forwards e target out
      → (a : IsAllowed r request e) × IsServed (at_slot r a.host a.session) request e target out
  unfolding serve_host
  serve_host-IsAllowed request host r e target out canonical h =
      let websocket = is_web_socket env request in
      let origin = valid_web_socket_origin env (values (bytes "Origin") request.header) host in
      elim (Bool-cases (websocket && not origin)) [
        | inl a ↦ absurd (ground (arith, h, a))
        | inr a ↦ elim (Bool-cases (not websocket && request.has_body && not course.has_deadline)) [
          | inl b ↦ absurd (ground (arith, h, a, b))
          | inr b ↦ elim (Bool-cases (request.path == bootstrap_path)) [
            | inl c ↦ elim (Bool-cases (request.method == bytes "POST")) [
              | inl d ↦ absurd (
                  exchange_session-answers request host (at_session r host) e target out
                    (ground (arith, h, a, b, c, d)))
              | inr d ↦ absurd (ground (arith, h, a, b, c, d))
            ]
            | inr c ↦
                let (session, presented, authentic, served, upgraded) =
                  serve_session-IsAllowed websocket request host
                    (session_credential (env.cookies (values cookie_key request.header)))
                    ((lookup_host env.packages course.found_at host r).1) e target out
                    (ground (arith, h, a, b, c)) in
                (
                  record {
                    host = host;
                    session = session;
                    canonical = canonical;
                    presented = presented;
                    authentic = authentic;
                    proxied = c;
                    upgraded = λ w. (ground (arith, a, w), upgraded w);
                  },
                  served,
                )
          ]
        ]
      ]

  -- A request is forwarded for an exposure only if its one session cookie authenticates as that exposure
  -- at its host, in the registry that the lookup of the host left; the exposure had a slot left and the
  -- request took it, in the registry that the lookup of the session left; the request is not for the
  -- router's own path and not too large; and the target is the one that the resolver has for the exposure
  -- and is valid. A web socket needs an origin at the same host and an exposure that allows it. What is
  -- forwarded is the proxy's outgoing header without credentials. This holds whatever other goroutines
  -- do between the calls of the registry.
  pub serve-IsAllowed :
      (request : Request) (r : Registry) (e : Exposure) (target : HttpServiceTarget) (out : Header)
      → (serve env handler resolve course request r).0 ≡ forwards e target out
      → (a : IsAllowed r request e) × IsServed (at_slot r a.host a.session) request e target out
  unfolding serve
  serve-IsAllowed request r e target out h =
      elim (Result-cases (canonical_host env.packages request.host)) [
        | inl (message, p) ↦ absurd (ground (arith, h, p))
        | inr (host, p) ↦
            let looked = lookup_host env.packages course.found_at host r in
            elim (Result-cases (looked.0)) [
              | inl (x, q) ↦ absurd (ground (arith, h, p, q))
              | inr (exposure, q) ↦
                  serve_host-IsAllowed request host r e target out p (ground (arith, h, p, q))
            ]
      ]
