-- ===== src/Workload/Registry/Invariant.antt =====
-- What every section of the registry keeps: no credential and no host without its exposure.
pub mod Register
pub mod Credentials
pub mod Connections
use agent_sandbox_platform.Base.{
  ℕ, ◌+◌, ◌^◌, ◌≤◌, ◌<◌, ◌≡◌, refl, String, Bool, true, false, not, ◌&&◌, List, [], ◌∷◌, Option,
  none, inl, inr, some, Bytes, ◌==◌, ltb, leb, if◌then◌else◌, arith, bytes_eq, nat_eq, Option-cases,
  Bool-cases,
}
use agent_sandbox_platform.Base.Int.{pos, leb_ℤ}
use agent_sandbox_platform.Base.Dict.{
  Dict, lookup, insert, erase, erase_where, lookup-insert, lookup-erase, lookup-erase_where,
}
use agent_sandbox_platform.Base.Result.{Result, ok, err}
use agent_sandbox_platform.Workload.Registry.{
  Event, Registration, Exposure, ExposureRef, CredentialRecord, ExposureState, Registry, ref_eq,
  or_zero, drop_host, revoke_state, revoke_found, ref_for, state_matches, state_live, emit, held_by,
  revoke_ref, revoke, revoke_all, close,
}
use agent_sandbox_platform.Workload.Registry.Sections.{
  Slot, TrackedConn, uint64_mod, registered_event, write_state, exists, next_generation, new_state,
  new_capability, insert_exposure, register_section, lookup_section, consume_section, store_section,
  authenticate_section, acquire, release, track_connection, close_tracked,
}

-- The credential names a registered exposure, and does not outlive it.
abbrev pub backed : Option ExposureState → CredentialRecord → Bool
backed none credential = false
backed (some state) credential =
    state_matches (some state) credential.exposure
    && leb credential.expires_at state.exposure.expires_at

-- The host belongs to a registered exposure.
abbrev pub hosted : Option ExposureState → Bytes → ExposureRef → Bool
hosted none host ref = false
hosted (some state) host ref = state_matches (some state) ref && state.exposure.host == host

pub record IsValid (r : Registry) : Type 0 where
  pub named :
      (id : Bytes) (state : ExposureState)
      → lookup id r.exposures ≡ some state
      → state.exposure.id ≡ id
  pub numbered :
      (id : Bytes) (state : ExposureState)
      → lookup id r.exposures ≡ some state
      → state.exposure.generation ≤ r.next_gen
  pub within :
      (id : Bytes) (state : ExposureState)
      → lookup id r.exposures ≡ some state
      → leb_ℤ (pos state.active) state.exposure.max_connections ≡ true
  pub listed :
      (id : Bytes) (state : ExposureState)
      → lookup id r.exposures ≡ some state
      → lookup state.exposure.host r.hosts ≡ some (ref_for state.exposure)
  pub host_backed :
      (host : Bytes) (ref : ExposureRef)
      → lookup host r.hosts ≡ some ref
      → hosted (lookup ref.id r.exposures) host ref ≡ true
  pub capability_backed :
      (digest : Bytes) (c : CredentialRecord)
      → lookup digest r.capabilities ≡ some c
      → backed (lookup c.exposure.id r.exposures) c ≡ true
  pub session_backed :
      (digest : Bytes) (c : CredentialRecord)
      → lookup digest r.sessions ≡ some c
      → backed (lookup c.exposure.id r.exposures) c ≡ true

lookup-drop_host :
    (j host : Bytes) (ref : ExposureRef) (hosts : Dict Bytes ExposureRef)
    → lookup j (drop_host host ref hosts)
      ≡ (if (or_zero (lookup host hosts) == ref) && (j == host) then none else lookup j hosts)
unfolding drop_host
lookup-drop_host j host ref hosts = ground (arith, lookup-erase j host hosts)

revoke_found-IsValid :
    (ref : ExposureRef) (outcome : String) (r : Registry) (o : Option ExposureState)
    → lookup ref.id r.exposures ≡ o
    → IsValid r
    → IsValid (revoke_found ref outcome o r)
unfolding revoke_found revoke_state emit or_zero
revoke_found-IsValid ref outcome r none e v = v
revoke_found-IsValid ref outcome r (some old) e v = record {
  named = λ id state. ground (arith, v.named id state, lookup-erase id ref.id r.exposures);
  numbered = λ id state. ground (arith, v.numbered id state, lookup-erase id ref.id r.exposures);
  within = λ id state. ground (arith, v.within id state, lookup-erase id ref.id r.exposures);
  listed = λ id state. ground (
    arith,
    v.listed id state,
    v.named id state,
    v.listed ref.id old,
    lookup-erase id ref.id r.exposures,
    lookup-drop_host state.exposure.host old.exposure.host ref r.hosts,
  );
  host_backed = λ host hostref. ground (
    arith,
    v.host_backed host hostref,
    v.listed ref.id old,
    v.named ref.id old,
    lookup-erase hostref.id ref.id r.exposures,
    lookup-drop_host host old.exposure.host ref r.hosts,
  );
  capability_backed = λ d c. ground (
    arith,
    v.capability_backed d c,
    lookup-erase c.exposure.id ref.id r.exposures,
    lookup-erase_where d (held_by ref) r.capabilities,
  );
  session_backed = λ d c. ground (
    arith,
    v.session_backed d c,
    lookup-erase c.exposure.id ref.id r.exposures,
    lookup-erase_where d (held_by ref) r.sessions,
  );
}

-- Revoking or expiring a registration, whether or not it is still the current one of its ID.
pub revoke_ref-IsValid :
    (ref : ExposureRef) (outcome : String) (r : Registry)
    → IsValid r
    → IsValid (revoke_ref ref outcome r)
unfolding revoke_ref
revoke_ref-IsValid ref outcome r v =
    revoke_found-IsValid ref outcome r (lookup ref.id r.exposures) refl v

emit-IsValid : (event : Event) (r : Registry) → IsValid r → IsValid (emit event r)
unfolding emit
emit-IsValid event r v = record {
  named = v.named;
  numbered = v.numbered;
  within = v.within;
  listed = v.listed;
  host_backed = v.host_backed;
  capability_backed = v.capability_backed;
  session_backed = v.session_backed;
}
