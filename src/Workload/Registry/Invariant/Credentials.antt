-- ===== src/Workload/Registry/Invariant/Credentials.antt =====
-- The sections of `Exchange` and `Authenticate` keep the registry valid.
use agent_sandbox_platform.Base.{ℕ, ◌≤◌, ◌≡◌, inl, inr, some, Bytes, arith, bytes_eq, Option-cases}
use agent_sandbox_platform.Base.Dict.{lookup, lookup-insert, lookup-erase}
use agent_sandbox_platform.Workload.Registry.{
  ExposureRef, ExposureState, CredentialRecord, Registry,
}
use agent_sandbox_platform.Workload.Registry.Sections.{
  consume_section, store_section, authenticate_section,
}
use agent_sandbox_platform.Workload.Registry.Invariant.{IsValid}

-- Spending a capability.
pub consume_section-IsValid :
    (now : ℕ) (ref : ExposureRef) (digest : Bytes) (r : Registry)
    → IsValid r
    → IsValid (consume_section now ref digest r).1
unfolding consume_section
consume_section-IsValid now ref digest r v = record {
  named = λ id state. ground (arith, v.named id state);
  numbered = λ id state. ground (arith, v.numbered id state);
  within = λ id state. ground (arith, v.within id state);
  listed = λ id state. ground (arith, v.listed id state);
  host_backed = λ h ref'. ground (arith, v.host_backed h ref');
  capability_backed =
      λ d c. ground (arith, v.capability_backed d c, lookup-erase d digest r.capabilities);
  session_backed = λ d c. ground (arith, v.session_backed d c);
}

-- Checking a session.
pub authenticate_section-IsValid :
    (now : ℕ) (ref : ExposureRef) (digest : Bytes) (r : Registry)
    → IsValid r
    → IsValid (authenticate_section now ref digest r).1
unfolding authenticate_section
authenticate_section-IsValid now ref digest r v = record {
  named = λ id state. ground (arith, v.named id state);
  numbered = λ id state. ground (arith, v.numbered id state);
  within = λ id state. ground (arith, v.within id state);
  listed = λ id state. ground (arith, v.listed id state);
  host_backed = λ h ref'. ground (arith, v.host_backed h ref');
  capability_backed = λ d c. ground (arith, v.capability_backed d c);
  session_backed = λ d c. ground (arith, v.session_backed d c, lookup-erase d digest r.sessions);
}

-- Storing a session that does not outlive the registration.
pub store_section-IsValid :
    (now : ℕ) (ref : ExposureRef) (digest : Bytes) (expires_at : ℕ) (r : Registry)
    → IsValid r
    → ((state : ExposureState)
        → lookup ref.id r.exposures ≡ some state
        → state.exposure.generation ≡ ref.generation
        → expires_at ≤ state.exposure.expires_at)
    → IsValid (store_section now ref digest expires_at r).1
unfolding store_section
store_section-IsValid now ref digest expires_at r v short =
    elim (Option-cases (lookup ref.id r.exposures)) [
      | inl e ↦ rw (e, store_section) v
      | inr (state, e) ↦
          let session : CredentialRecord = record { exposure = ref; expires_at = expires_at } in
          record {
            named = λ id other. ground (arith, v.named id other);
            numbered = λ id other. ground (arith, v.numbered id other);
            within = λ id other. ground (arith, v.within id other);
            listed = λ id other. ground (arith, v.listed id other);
            host_backed = λ h ref'. ground (arith, v.host_backed h ref');
            capability_backed = λ d c. ground (arith, v.capability_backed d c);
            session_backed = λ d c. ground (
              arith,
              v.session_backed d c,
              short state e,
              lookup-insert d digest session r.sessions,
            );
          }
    ]
