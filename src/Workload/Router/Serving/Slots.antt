-- ===== src/Workload/Router/Serving/Slots.antt =====
-- apps/workload-router/internal/router/router.go, `ServeHTTP`: a request gives its slot back.
use agent_sandbox_platform.Base.{
  ℕ, ◌+◌, ◌-◌, Bool, true, false, not, ◌&&◌, Option, none, some, subst, eqb, ◌==◌, Bytes, bytes_eq,
  ltb, ◌≡◌, refl, ap, ◌∙◌, arith, Option-cases, Bool-cases, inl, inr, nat_eq,
}
use agent_sandbox_platform.Base.Dict.{lookup, lookup-insert}
use agent_sandbox_platform.Base.Int.{ltb_ℤ}
use agent_sandbox_platform.Base.Result.{ok, err, Result-cases}
use agent_sandbox_platform.Workload.Registry.{
  AuthError, Exposure, ExposureState, Registry, ref_for, state_matches,
}
use agent_sandbox_platform.Workload.Registry.Sections.{Slot, acquire, release, write_state}
use agent_sandbox_platform.Workload.Resolver.{HttpServiceTarget}
use agent_sandbox_platform.Workload.Router.{Environment, Request, Handler}
use agent_sandbox_platform.Workload.Router.Serving.{Course, serve_exposure}

-- What a registration has besides its timer and its connections: the exposure, and how many slots are
-- taken.
abbrev pub slots : Option ExposureState → Option (Exposure × ℕ)
slots none = none
slots (some state) = some (state.exposure, state.active)

-- The same exposures are found, with as many slots taken.
abbrev pub SameExposures : Registry → Registry → Type 0
SameExposures r s = (id : Bytes) → slots (lookup id s.exposures) ≡ slots (lookup id r.exposures)

acquire-err :
    (now : ℕ) (exposure : Exposure) (r : Registry) (e : AuthError)
    → (acquire now exposure r).0 ≡ err e
    → (acquire now exposure r).1 ≡ r
unfolding acquire
acquire-err now exposure r e h = ground (arith, h)

acquire-ok :
    (now : ℕ) (exposure : Exposure) (r : Registry) (slot : Slot)
    → (acquire now exposure r).0 ≡ ok slot
    → (state : ExposureState) × (lookup exposure.id r.exposures ≡ some state)
      × (state_matches (some state) (ref_for exposure) ≡ true)
      × (slot ≡ record { ref = ref_for exposure; released = false })
      × ((acquire now exposure r).1
          ≡ write_state (ref_for exposure) (record state { active = state.active + 1 }) r)
unfolding acquire
acquire-ok now exposure r slot h = elim (Option-cases (lookup exposure.id r.exposures)) [
  | inl p ↦ absurd (ground (arith, h, p))
  | inr (state, p) ↦ (state, p, ground (arith, h, p), ground (arith, h, p), ground (arith, h, p))
]

release-written :
    (exposure : Exposure) (state : ExposureState) (r s : Registry)
    → lookup exposure.id r.exposures ≡ some state
    → state_matches (some state) (ref_for exposure) ≡ true
    → SameExposures
        (write_state (ref_for exposure) (record state { active = state.active + 1 }) r)
        s
    → SameExposures r ((release (record { ref = ref_for exposure; released = false }) s).1)
unfolding release
release-written exposure state r s p m same id =
    let taken : ExposureState = record state { active = state.active + 1 } in
    let busy = write_state (ref_for exposure) taken r in
    let found : lookup exposure.id busy.exposures ≡ some taken =
      lookup-insert exposure.id exposure.id taken r.exposures ∙ ground arith in
    elim (Option-cases (lookup exposure.id s.exposures)) [
      | inl q ↦ absurd (ground (arith, same exposure.id, found, q))
      | inr (now, q) ↦
          let one : now.exposure ≡ state.exposure = ground (arith, same exposure.id, found, q) in
          let counted : now.active ≡ state.active + 1 =
            ground (arith, same exposure.id, found, q) in
          let matching : state_matches (some now) (ref_for exposure) ≡ true =
            ap (λ (e : Exposure). e.id == exposure.id && eqb e.generation exposure.generation) one
            ∙ m in
          let positive : ltb 0 now.active ≡ true = ground (arith, counted) in
          let left : ExposureState = record now { active = now.active - 1 } in
          let back : slots (some left) ≡ slots (some state) = ground (arith, one, counted) in
          rw (release, q, matching, positive)
            (ap slots (lookup-insert id exposure.id left s.exposures)
              ∙ ground (arith, p, back, same id, lookup-insert id exposure.id taken r.exposures))
    ]

-- A slot that is taken and given back leaves every exposure with the slots it had, if what happens in
-- between does.
acquire-release :
    (now : ℕ) (exposure : Exposure) (r s : Registry) (slot : Slot)
    → (acquire now exposure r).0 ≡ ok slot
    → SameExposures ((acquire now exposure r).1) s
    → SameExposures r ((release slot s).1)
acquire-release now exposure r s slot h same =
    let (state, p, m, given, written) = acquire-ok now exposure r slot h in
    rw given (release-written exposure state r s p m (subst (λ q. SameExposures q s) written same))

module _ (env : Environment) (handler : Handler) (resolve : Bytes → Option HttpServiceTarget)
    (course : Course) where
  -- Whatever becomes of an authenticated request, and however its proxying ends, it leaves every
  -- exposure with as many slots taken as it found, provided that the registry has the same exposures
  -- with as many slots taken when the slot is given back as just after it was taken. What happens in
  -- between may track and close connections, as the request's own dial does.
  pub serve_exposure-SameExposures :
      (websocket : Bool) (request : Request) (exposure : Exposure) (r : Registry)
      → SameExposures
          ((acquire course.acquired_at exposure r).1)
          (course.while_proxied ((acquire course.acquired_at exposure r).1))
      → SameExposures r ((serve_exposure env handler resolve course websocket request exposure r).1)
  unfolding serve_exposure
  serve_exposure-SameExposures websocket request exposure r alone id =
      let taken = acquire course.acquired_at exposure r in
      elim (Bool-cases (websocket && not exposure.allow_web_socket)) [
        | inl a ↦ rw (serve_exposure, a) refl
        | inr a ↦ elim (Bool-cases (ltb_ℤ handler.body_limit request.content_length)) [
          | inl b ↦ rw (serve_exposure, a, b) refl
          | inr b ↦ elim (Result-cases (taken.0)) [
            | inl (e, c) ↦
                rw (serve_exposure, a, b, c)
                  (ap (λ (s : Registry). slots (lookup id s.exposures))
                    (acquire-err course.acquired_at exposure r e c))
            | inr (slot, c) ↦
                rw (serve_exposure, a, b, c)
                  (acquire-release course.acquired_at exposure r (course.while_proxied taken.1) slot
                    c alone id)
          ]
        ]
      ]
