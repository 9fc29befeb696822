-- ===== src/Workload/Registry/Invariant/Register.antt =====
-- `Register` keeps the registry valid.
use agent_sandbox_platform.Base.{
  ℕ, ◌+◌, ◌<◌, ◌≡◌, inl, inr, true, none, Bytes, arith, bytes_eq, Option-cases,
}
use agent_sandbox_platform.Base.Int.{pos, leb_ℤ}
use agent_sandbox_platform.Base.Dict.{lookup, lookup-insert}
use agent_sandbox_platform.Workload.Registry.{Registration, Registry, ref_for}
use agent_sandbox_platform.Workload.Registry.Sections.{
  uint64_mod, next_generation, new_state, new_capability, registered_event, insert_exposure,
  register_section,
}
use agent_sandbox_platform.Workload.Registry.Invariant.{IsValid, emit-IsValid}

module _ (now : ℕ) (reg : Registration) (host digest : Bytes) (r : Registry)
    (room : r.next_gen + 1 < uint64_mod) (positive : leb_ℤ (pos 0) reg.max_connections ≡ true)
    (v : IsValid r) where
  insert_exposure-IsValid :
      lookup reg.exposure_id r.exposures ≡ none
      → lookup host r.hosts ≡ none
      → IsValid (insert_exposure now reg host digest r)
  unfolding insert_exposure
  insert_exposure-IsValid free unhosted =
      let generation = next_generation r in
      let state = new_state reg host generation in
      let at = λ (id : Bytes). lookup-insert id reg.exposure_id state r.exposures in
      record {
        named = λ id other. ground (arith, v.named id other, at id);
        numbered = λ id other. ground (arith, v.numbered id other, at id);
        within = λ id other. ground (arith, v.within id other, at id);
        listed = λ id other. ground (
          arith,
          v.listed id other,
          at id,
          lookup-insert other.exposure.host host (ref_for state.exposure) r.hosts,
        );
        host_backed = λ h ref. ground (
          arith,
          v.host_backed h ref,
          at ref.id,
          lookup-insert h host (ref_for state.exposure) r.hosts,
        );
        capability_backed = λ d c. ground (
          arith,
          v.capability_backed d c,
          at c.exposure.id,
          lookup-insert d digest (new_capability now reg host r) r.capabilities,
        );
        session_backed = λ d c. ground (arith, v.session_backed d c, at c.exposure.id);
      }

  -- Registering an exposure.
  pub register_section-IsValid : IsValid (register_section now reg host digest r).1
  unfolding register_section
  register_section-IsValid = elim (Option-cases (lookup reg.exposure_id r.exposures)) [
    | inl free ↦ elim (Option-cases (lookup host r.hosts)) [
      | inl unhosted ↦ ground (
        arith,
        emit-IsValid (registered_event reg) (insert_exposure now reg host digest r)
            (insert_exposure-IsValid free unhosted),
      )
      | inr (ref, e) ↦ ground arith
    ]
    | inr (state, e) ↦ ground arith
  ]
