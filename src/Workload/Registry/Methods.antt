-- ===== src/Workload/Registry/Methods.antt =====
-- The methods of the registry that have more than one section, as one goroutine runs them.
use agent_sandbox_platform.Base.{
  ℕ, not, ◌||◌, [], Option, none, some, String, Bytes, ◌==◌, ltb, if◌then◌else◌, length, take, drop,
  bytes_eq,
}
use agent_sandbox_platform.Base.Int.{pos, leb_ℤ}
use agent_sandbox_platform.Base.Result.{Result, ok, err}
use agent_sandbox_platform.Codec.Base64
use agent_sandbox_platform.Workload.Host.{Packages, canonical_host}
use agent_sandbox_platform.Workload.Registry.{
  AuthError, unauthorized, failed, Registration, Exposure, Registry, ref_for, emit, revoke_ref,
  valid_credential_shape,
}
use agent_sandbox_platform.Workload.Registry.Sections.{
  live, expired, missing, capped, register_section, lookup_section, consume_section, store_section,
  authenticate_section,
}

module _ (packages : Packages) where
  -- `newCredential`: `io.ReadFull` takes 32 bytes, or all that are left and fails.
  unfoldable pub new_credential : Registry → Option (Bytes × Bytes) × Registry
  unfolding Base64.encode
  new_credential r =
      if ltb (length r.random) 32
      then (none, record r { random = [] })
      else let token = Base64.encode (take 32 r.random) in
        (some (token, packages.sha256 token), record r { random = drop 32 r.random })

  register_checks : ℕ → Registration → Result AuthError Bytes
  unfolding canonical_host
  register_checks now reg = elim (canonical_host packages reg.host) [
    | err message ↦ err (failed message)
    | ok host ↦
        if reg.exposure_id == [] || ltb 128 (length reg.exposure_id)
        then err (failed "invalid exposure ID")
        else if not (ltb now reg.expires_at)
        then err (failed "exposure expiry must be in the future")
        else if leb_ℤ reg.max_connections (pos 0)
        then err (failed "maximum connections must be positive")
        else ok host
  ]

  -- `Register`, which reads the clock twice.
  unfoldable pub register : ℕ → ℕ → Registration → Registry → Result AuthError Bytes × Registry
  unfolding register_checks new_credential register_section
  register checked now reg r = elim (register_checks checked reg) [
    | err e ↦ (err e, r)
    | ok host ↦
        let (credential, drawn) = new_credential r in
        elim credential [
          | none ↦ (err (failed "generate bootstrap capability"), drawn)
          | some (token, digest) ↦
              let (result, r') = register_section now reg host digest drawn in
              elim result [ err e ↦ (err e, r') | ok _ ↦ (ok token, r') ]
        ]
  ]

  -- `LookupHost`
  unfoldable pub lookup_host : ℕ → Bytes → Registry → Result AuthError Exposure × Registry
  unfolding canonical_host lookup_section revoke_ref
  lookup_host now host r = elim (canonical_host packages host) [
    | err message ↦ (err unauthorized, r)
    | ok canonical ↦ elim (lookup_section now canonical r) [
      | live exposure ↦ (ok exposure, r)
      | expired ref ↦ (err unauthorized, revoke_ref ref "expired" r)
      | missing ↦ (err unauthorized, r)
    ]
  ]

  abbrev exchange_event : Bytes → String → Registry → Registry
  exchange_event id outcome =
      emit (record { exposure_id = id; kind = "exchange"; outcome = outcome })

  -- The rest of `Exchange` once the capability is spent.
  unfoldable pub issue_session : ℕ → Exposure → Registry → Result AuthError (Bytes × ℕ) × Registry
  unfolding new_credential store_section emit
  issue_session now exposure r =
      let (credential, drawn) = new_credential r in
      elim credential [
        | none ↦ (err (failed "generate session credential"), drawn)
        | some (session, digest) ↦
            let expires_at = capped now r.session_ttl exposure.expires_at in
            let (stored, r') = store_section now (ref_for exposure) digest expires_at drawn in
            if stored
            then (ok (session, expires_at), exchange_event exposure.id "allowed" r')
            else (err unauthorized, r')
      ]

  -- `Exchange`, which reads the clock in `LookupHost`, before the capability is spent, and before
  -- the session is stored.
  unfoldable pub exchange :
      ℕ → ℕ → ℕ → Bytes → Bytes → Registry → Result AuthError (Bytes × ℕ) × Registry
  exchange looked_up consumed stored host capability r =
      let (found, r₁) = lookup_host looked_up host r in
      elim found [
        | err e ↦ (err unauthorized, exchange_event [] "denied" r₁)
        | ok exposure ↦
            if not (valid_credential_shape capability)
            then (err unauthorized, exchange_event [] "denied" r₁)
            else let (allowed, r₂) =
                consume_section consumed (ref_for exposure) (packages.sha256 capability) r₁ in
              if allowed
              then issue_session stored exposure r₂
              else (err unauthorized, exchange_event exposure.id "denied" r₂)
      ]

  -- `Authenticate`
  unfoldable pub authenticate :
      ℕ → ℕ → Bytes → Bytes → Registry → Result AuthError Exposure × Registry
  authenticate looked_up now host session r =
      let (found, r₁) = lookup_host looked_up host r in
      elim found [
        | err e ↦ (err unauthorized, r₁)
        | ok exposure ↦
            if not (valid_credential_shape session)
            then (err unauthorized, r₁)
            else let (allowed, r₂) =
                authenticate_section now (ref_for exposure) (packages.sha256 session) r₁ in
              (if allowed then ok exposure else err unauthorized, r₂)
      ]
