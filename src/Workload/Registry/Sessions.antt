-- ===== src/Workload/Registry/Sessions.antt =====
-- What the methods do for one goroutine: the way from a registration to an authenticated session,
-- and what the end of a registration does.
use agent_sandbox_platform.Base.{
  ℕ, ◌≤◌, ◌<◌, ◌≡◌, ◌∙◌, ap, sym, subst, inl, inr, true, [], ◌∷◌, Bytes, arith, bytes_eq,
  length-take, length, All, take,
}
use agent_sandbox_platform.Base.Dict.{lookup, insert, lookup-insert}
use agent_sandbox_platform.Base.Result.{ok, Result-cases}
use agent_sandbox_platform.Codec.Base64
use agent_sandbox_platform.Codec.Base64.RoundTrip.{IsByte, decode-encode, length-encode}
use agent_sandbox_platform.Workload.Host.{Packages}
use agent_sandbox_platform.Workload.Registry.{
  Exposure, ExposureRef, CredentialRecord, Registry, ref_for, state_matches, emit, or_zero,
  valid_credential_shape,
}
use agent_sandbox_platform.Workload.Registry.Sections.{
  capped, lookup_section, lookup_state, consume_section, store_section, authenticate_section,
}
use agent_sandbox_platform.Workload.Registry.Methods.{
  new_credential, lookup_host, issue_session, exchange, authenticate,
}

-- A drawn credential has the shape that the registry accepts.
encoded_shape :
    (raw : Bytes)
    → length raw ≡ 32
    → All IsByte raw
    → valid_credential_shape (Base64.encode raw) ≡ true
unfolding valid_credential_shape
encoded_shape raw n h = ground (arith, decode-encode raw h, length-encode raw)

-- The registrations of two registries are the same.
abbrev SameRegistrations : Registry → Registry → Type 0
SameRegistrations r s = (s.hosts ≡ r.hosts) × (s.exposures ≡ r.exposures)

consume-SameRegistrations :
    (now : ℕ) (ref : ExposureRef) (digest : Bytes) (r : Registry)
    → SameRegistrations r (consume_section now ref digest r).1
unfolding consume_section
consume-SameRegistrations now ref digest r = (ground arith, ground arith)

random-consume :
    (now : ℕ) (ref : ExposureRef) (digest : Bytes) (r : Registry)
    → (consume_section now ref digest r).1.random ≡ r.random
unfolding consume_section
random-consume now ref digest r = ground arith

take-IsByte : (n : ℕ) (s : Bytes) → All IsByte s → All IsByte (take n s)
take-IsByte ℕ.zero s h = tt
take-IsByte (ℕ.suc n) [] h = tt
take-IsByte (ℕ.suc n) (x ∷ s) h = (h.0, take-IsByte n s h.1)

module _ (packages : Packages) where
  lookup_host-unchanged :
      (now : ℕ) (host : Bytes) (r : Registry) (e : Exposure)
      → (lookup_host packages now host r).0 ≡ ok e
      → (lookup_host packages now host r).1 ≡ r
  unfolding lookup_host
  lookup_host-unchanged now host r e h = ground arith

  -- A successful lookup succeeds again until the exposure expires.
  lookup_host-again :
      (now later : ℕ) (host : Bytes) (r s : Registry) (e : Exposure)
      → (lookup_host packages now host r).0 ≡ ok e
      → SameRegistrations r s
      → later < e.expires_at
      → lookup_host packages later host s ≡ (ok e, s)
  unfolding lookup_host lookup_section lookup_state or_zero
  lookup_host-again now later host r s e h same soon = ground arith

  -- The session that is handed out.
  issue-credential :
      (now : ℕ) (e : Exposure) (r : Registry) (session : Bytes) (expires_at : ℕ)
      → (issue_session packages now e r).0 ≡ ok (session, expires_at)
      → (session ≡ Base64.encode (take 32 r.random))
        × (32 ≤ length r.random)
        × (expires_at ≡ capped now r.session_ttl e.expires_at)
        × (state_matches (lookup e.id r.exposures) (ref_for e) ≡ true)
        × ((issue_session packages now e r).1.hosts ≡ r.hosts)
        × ((issue_session packages now e r).1.exposures ≡ r.exposures)
        × ((issue_session packages now e r).1.sessions
            ≡ insert
                (packages.sha256 (Base64.encode (take 32 r.random)))
                (record {
                  exposure = ref_for e;
                  expires_at = capped now r.session_ttl e.expires_at;
                })
                r.sessions)
  unfolding issue_session new_credential store_section emit
  issue-credential now e r session expires_at h = (
    ground arith,
    ground arith,
    ground arith,
    ground arith,
    ground arith,
    ground arith,
    ground arith,
  )

  -- A stored session is accepted until it expires.
  authenticate-stored :
      (later : ℕ) (ref : ExposureRef) (digest : Bytes) (expires_at : ℕ) (r s : Registry)
      → s.sessions ≡ insert digest (record { exposure = ref; expires_at = expires_at }) r.sessions
      → state_matches (lookup ref.id s.exposures) ref ≡ true
      → later < expires_at
      → authenticate_section later ref digest s ≡ (true, s)
  unfolding authenticate_section
  authenticate-stored later ref digest expires_at r s stored matches soon =
      let session : CredentialRecord = record { exposure = ref; expires_at = expires_at } in
      ground (arith, lookup-insert digest digest session r.sessions)

  -- What a successful exchange went through.
  exchange-steps :
      (t₁ t₂ t₃ : ℕ) (host capability : Bytes) (r : Registry) (session : Bytes) (expires_at : ℕ)
      → (exchange packages t₁ t₂ t₃ host capability r).0 ≡ ok (session, expires_at)
      → (e : Exposure) × ((lookup_host packages t₁ host r).0 ≡ ok e)
        × (let r₂ =
              (consume_section t₂
                (ref_for e)
                (packages.sha256 capability)
                (lookup_host packages t₁ host r).1).1 in
            exchange packages t₁ t₂ t₃ host capability r ≡ issue_session packages t₃ e r₂)
  unfolding exchange
  exchange-steps t₁ t₂ t₃ host capability r session expires_at h =
      elim (Result-cases (lookup_host packages t₁ host r).0) [
        | inl (x, p) ↦ ground arith
        | inr (e, p) ↦ (e, p, ground arith)
      ]

  exchange-again :
      (t₁ t₃ looked later : ℕ) (host : Bytes) (r r₁ : Registry) (e : Exposure) (session : Bytes)
      (expires_at : ℕ)
      → All IsByte r₁.random
      → SameRegistrations r r₁
      → (lookup_host packages t₁ host r).0 ≡ ok e
      → (issue_session packages t₃ e r₁).0 ≡ ok (session, expires_at)
      → looked < expires_at
      → later < expires_at
      → authenticate packages looked later host session (issue_session packages t₃ e r₁).1
        ≡ (ok e, (issue_session packages t₃ e r₁).1)
  unfolding authenticate
  exchange-again t₁ t₃ looked later host r r₁ e session expires_at random same found h s₁ s₂ =
      let raw = take 32 r₁.random in
      let digest = packages.sha256 session in
      let final = (issue_session packages t₃ e r₁).1 in
      let (drawn, enough, capped_at, matches, hosts, exposures, sessions) =
        issue-credential t₃ e r₁ session expires_at h in
      let found_again : lookup_host packages looked host final ≡ (ok e, final) =
        (lookup_host-again t₁ looked host r final e found (hosts ∙ same.0, exposures ∙ same.1)
          (ground arith)) in
      let shaped : valid_credential_shape session ≡ true = rw drawn (
        encoded_shape raw (omega (arith, length-take 32 r₁.random))
          (take-IsByte 32 r₁.random random)) in
      let accepted : authenticate_section later (ref_for e) digest final ≡ (true, final) =
        authenticate-stored later (ref_for e) digest expires_at r₁ final (ground arith)
          (ground arith) s₂ in
      ground arith

  -- A session that `Exchange` hands out authenticates at its host until it expires, as the exposure
  -- that the exchange looked up: the random reader's bytes are bytes, and no other call runs
  -- between.
  pub exchange-authenticate :
      (t₁ t₂ t₃ looked later : ℕ) (host capability : Bytes) (r : Registry) (session : Bytes)
      (expires_at : ℕ)
      → All IsByte r.random
      → (exchange packages t₁ t₂ t₃ host capability r).0 ≡ ok (session, expires_at)
      → looked < expires_at
      → later < expires_at
      → let s = (exchange packages t₁ t₂ t₃ host capability r).1 in
        (e : Exposure) × ((lookup_host packages t₁ host r).0 ≡ ok e)
        × (authenticate packages looked later host session s ≡ (ok e, s))
  exchange-authenticate t₁ t₂ t₃ looked later host capability r session expires_at random h s₁ s₂ =
      let (e, found, steps) = exchange-steps t₁ t₂ t₃ host capability r session expires_at h in
      let r₁ = (lookup_host packages t₁ host r).1 in
      let digest = packages.sha256 capability in
      let r₂ = (consume_section t₂ (ref_for e) digest r₁).1 in
      let unchanged : r₁ ≡ r = lookup_host-unchanged t₁ host r e found in
      let same = consume-SameRegistrations t₂ (ref_for e) digest r₁ in
      (
        e,
        found,
        rw steps (
            exchange-again t₁ t₃ looked later host r r₂ e session expires_at
              (subst (All IsByte)
                (sym (
                  random-consume t₂ (ref_for e) digest r₁
                  ∙ ap (λ (x : Registry). x.random) unchanged))
                random)
              (
                same.0 ∙ ap (λ (x : Registry). x.hosts) unchanged,
                same.1 ∙ ap (λ (x : Registry). x.exposures) unchanged,
              )
              found (rw steps at h) s₁ s₂),
      )
