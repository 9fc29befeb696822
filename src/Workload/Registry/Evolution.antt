-- ===== src/Workload/Registry/Evolution.antt =====
-- How a section changes the set of registrations: it may end some, and it may begin one under a
-- generation that was never used. What is registered stays as it was registered.
use agent_sandbox_platform.Base.{
  ℕ, ◌+◌, ◌-◌, ◌≤◌, ◌<◌, ◌≡◌, refl, inl, inr, Option, none, some, String, Bytes, arith, bytes_eq,
  Option-cases,
}
use agent_sandbox_platform.Base.Dict.{lookup, insert, lookup-insert, lookup-erase}
use agent_sandbox_platform.Workload.Registry.{
  Registration, Exposure, ExposureRef, ExposureState, Registry, ref_for, revoke_ref, emit,
}
use agent_sandbox_platform.Workload.Registry.Sections.{
  Slot, TrackedConn, add_conn, remove_conn, close_conn, write_state, uint64_mod, next_generation,
  new_state, insert_exposure, register_section, consume_section, store_section,
  authenticate_section, acquire, release, track_connection, close_tracked,
}

abbrev pub exposure_of : Option ExposureState → Option Exposure
exposure_of none = none
exposure_of (some state) = some state.exposure

pub record Evolves (r s : Registry) : Type 0 where
  pub grows : r.next_gen ≤ s.next_gen
  pub slowly : s.next_gen ≤ r.next_gen + 1
  pub origin :
      (id : Bytes) (e : Exposure)
      → exposure_of (lookup id s.exposures) ≡ some e
      → e.generation ≤ r.next_gen
      → exposure_of (lookup id r.exposures) ≡ some e

pub Evolves-refl : (r : Registry) → Evolves r r
Evolves-refl r = record { grows = omega arith; slowly = omega arith; origin = λ id e h g. h }

pub Evolves-revoke_ref :
    (ref : ExposureRef) (outcome : String) (r : Registry) → Evolves r (revoke_ref ref outcome r)
unfolding revoke_ref emit
Evolves-revoke_ref ref outcome r = record {
  grows = ground arith;
  slowly = ground arith;
  origin = λ id e. ground (arith, lookup-erase id ref.id r.exposures);
}

pub Evolves-register_section :
    (now : ℕ) (reg : Registration) (host digest : Bytes) (r : Registry)
    → r.next_gen + 1 < uint64_mod
    → Evolves r (register_section now reg host digest r).1
unfolding register_section insert_exposure emit
Evolves-register_section now reg host digest r room = record {
  grows = ground arith;
  slowly = ground arith;
  origin = λ id e. ground (
    arith,
    lookup-insert id reg.exposure_id (new_state reg host (next_generation r)) r.exposures,
  );
}

pub Evolves-consume_section :
    (now : ℕ) (ref : ExposureRef) (digest : Bytes) (r : Registry)
    → Evolves r (consume_section now ref digest r).1
unfolding consume_section
Evolves-consume_section now ref digest r = record {
  grows = ground arith;
  slowly = ground arith;
  origin = λ id e. ground arith;
}

pub Evolves-authenticate_section :
    (now : ℕ) (ref : ExposureRef) (digest : Bytes) (r : Registry)
    → Evolves r (authenticate_section now ref digest r).1
unfolding authenticate_section
Evolves-authenticate_section now ref digest r = record {
  grows = ground arith;
  slowly = ground arith;
  origin = λ id e. ground arith;
}

pub Evolves-store_section :
    (now : ℕ) (ref : ExposureRef) (digest : Bytes) (expires_at : ℕ) (r : Registry)
    → Evolves r (store_section now ref digest expires_at r).1
unfolding store_section
Evolves-store_section now ref digest expires_at r = record {
  grows = ground arith;
  slowly = ground arith;
  origin = λ id e. ground arith;
}

Evolves-write_state :
    (ref : ExposureRef) (old new : ExposureState) (r s : Registry)
    → lookup ref.id r.exposures ≡ some old
    → new.exposure ≡ old.exposure
    → s.next_gen ≡ r.next_gen
    → s.exposures ≡ insert ref.id new r.exposures
    → Evolves r s
Evolves-write_state ref old new r s e same g h = record {
  grows = omega arith;
  slowly = omega arith;
  origin = λ id x. ground (arith, lookup-insert id ref.id new r.exposures);
}

pub Evolves-acquire :
    (now : ℕ) (exposure : Exposure) (r : Registry) → Evolves r (acquire now exposure r).1
unfolding acquire
Evolves-acquire now exposure r = elim (Option-cases (lookup exposure.id r.exposures)) [
  | inl e ↦ rw (e, acquire) (Evolves-refl r)
  | inr (state, e) ↦
      let busier : ExposureState = record state { active = state.active + 1 } in
      rw (e, acquire)
        (ground (
          arith,
          Evolves-refl r,
          Evolves-write_state (ref_for exposure) state busier r
              (write_state (ref_for exposure) busier r) e refl refl refl,
        ))
]

pub Evolves-release : (slot : Slot) (r : Registry) → Evolves r (release slot r).1
unfolding release
Evolves-release slot r = elim (Option-cases (lookup slot.ref.id r.exposures)) [
  | inl e ↦ rw (e, release) (ground (arith, Evolves-refl r))
  | inr (state, e) ↦
      let freer : ExposureState = record state { active = state.active - 1 } in
      rw (e, release)
        (ground (
          arith,
          Evolves-refl r,
          Evolves-write_state slot.ref state freer r (write_state slot.ref freer r) e refl refl
              refl,
        ))
]

Evolves-close_conn : (conn : ℕ) (r : Registry) → Evolves r (close_conn conn r)
Evolves-close_conn conn r = record {
  grows = omega arith;
  slowly = omega arith;
  origin = λ id e h g. h;
}

pub Evolves-track_connection :
    (now : ℕ) (exposure : Exposure) (conn : ℕ) (r : Registry)
    → Evolves r (track_connection now exposure conn r).1
unfolding track_connection
Evolves-track_connection now exposure conn r =
    let closed = Evolves-close_conn conn r in
    elim (Option-cases (lookup exposure.id r.exposures)) [
      | inl e ↦ rw (e, track_connection) closed
      | inr (state, e) ↦
          let tracking : ExposureState = record state { conns = add_conn conn state.conns } in
          rw (e, track_connection)
            (ground (
              arith,
              closed,
              Evolves-write_state (ref_for exposure) state tracking r
                  (write_state (ref_for exposure) tracking r) e refl refl refl,
            ))
    ]

pub Evolves-close_tracked :
    (tracked : TrackedConn) (r : Registry) → Evolves r (close_tracked tracked r).1
unfolding close_tracked
Evolves-close_tracked tracked r =
    let closed = Evolves-close_conn tracked.conn r in
    elim (Option-cases (lookup tracked.ref.id r.exposures)) [
      | inl e ↦ rw (e, close_tracked) (ground (arith, closed))
      | inr (state, e) ↦
          let left : ExposureState = record state {
            conns = remove_conn tracked.conn state.conns;
          } in
          rw (e, close_tracked)
            (ground (
              arith,
              closed,
              Evolves-write_state tracked.ref state left r
                  (write_state tracked.ref left (close_conn tracked.conn r)) e refl refl refl,
            ))
    ]
