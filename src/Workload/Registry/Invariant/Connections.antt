-- ===== src/Workload/Registry/Invariant/Connections.antt =====
-- The slots and the tracked connections keep the registry valid.
use agent_sandbox_platform.Base.{
  ℕ, ◌+◌, ◌-◌, ◌≡◌, refl, inl, inr, true, some, Bytes, arith, bytes_eq, Option-cases,
}
use agent_sandbox_platform.Base.Int.{pos, leb_ℤ}
use agent_sandbox_platform.Base.Dict.{lookup, lookup-insert}
use agent_sandbox_platform.Workload.Registry.{
  Exposure, ExposureRef, ExposureState, Registry, ref_for,
}
use agent_sandbox_platform.Workload.Registry.Sections.{
  Slot, TrackedConn, add_conn, remove_conn, close_conn, write_state, acquire, release,
  track_connection, close_tracked,
}
use agent_sandbox_platform.Workload.Registry.Invariant.{IsValid}

-- A write to the current state of an exposure that leaves the registration alone.
write_state-IsValid :
    (ref : ExposureRef) (old new : ExposureState) (r : Registry)
    → lookup ref.id r.exposures ≡ some old
    → new.exposure ≡ old.exposure
    → leb_ℤ (pos new.active) new.exposure.max_connections ≡ true
    → IsValid r
    → IsValid (write_state ref new r)
write_state-IsValid ref old new r e same room v =
    let at = λ (id : Bytes). lookup-insert id ref.id new r.exposures in
    record {
      named = λ id other. ground (arith, v.named id other, v.named ref.id old, at id);
      numbered = λ id other. ground (arith, v.numbered id other, v.numbered ref.id old, at id);
      within = λ id other. ground (arith, v.within id other, at id);
      listed = λ id other. ground (arith, v.listed id other, v.listed ref.id old, at id);
      host_backed = λ h ref'. ground (arith, v.host_backed h ref', at ref'.id);
      capability_backed = λ d c. ground (arith, v.capability_backed d c, at c.exposure.id);
      session_backed = λ d c. ground (arith, v.session_backed d c, at c.exposure.id);
    }

-- Taking a slot.
pub acquire-IsValid :
    (now : ℕ) (exposure : Exposure) (r : Registry) → IsValid r → IsValid (acquire now exposure r).1
unfolding acquire
acquire-IsValid now exposure r v = elim (Option-cases (lookup exposure.id r.exposures)) [
  | inl e ↦ rw (e, acquire) v
  | inr (state, e) ↦
      let busier : ExposureState = record state { active = state.active + 1 } in
      rw (e, acquire)
        (ground (arith, write_state-IsValid (ref_for exposure) state busier r e refl, v))
]

-- Giving a slot back.
pub release-IsValid : (slot : Slot) (r : Registry) → IsValid r → IsValid (release slot r).1
unfolding release
release-IsValid slot r v = elim (Option-cases (lookup slot.ref.id r.exposures)) [
  | inl e ↦ rw (e, release) (ground arith)
  | inr (state, e) ↦
      let freer : ExposureState = record state { active = state.active - 1 } in
      rw (e, release)
        (ground
          (arith, v.within slot.ref.id state, write_state-IsValid slot.ref state freer r e refl))
]

close_conn-IsValid : (conn : ℕ) (r : Registry) → IsValid r → IsValid (close_conn conn r)
close_conn-IsValid conn r v = record {
  named = v.named;
  numbered = v.numbered;
  within = v.within;
  listed = v.listed;
  host_backed = v.host_backed;
  capability_backed = v.capability_backed;
  session_backed = v.session_backed;
}

-- Tracking a connection, or closing it when its exposure is gone.
pub track_connection-IsValid :
    (now : ℕ) (exposure : Exposure) (conn : ℕ) (r : Registry)
    → IsValid r
    → IsValid (track_connection now exposure conn r).1
unfolding track_connection
track_connection-IsValid now exposure conn r v =
    let closed = close_conn-IsValid conn r v in
    elim (Option-cases (lookup exposure.id r.exposures)) [
      | inl e ↦ rw (e, track_connection) closed
      | inr (state, e) ↦
          let tracking : ExposureState = record state { conns = add_conn conn state.conns } in
          rw (e, track_connection)
            (ground (
              arith,
              closed,
              v.within exposure.id state,
              write_state-IsValid (ref_for exposure) state tracking r e refl,
            ))
    ]

-- Closing a tracked connection.
pub close_tracked-IsValid :
    (tracked : TrackedConn) (r : Registry) → IsValid r → IsValid (close_tracked tracked r).1
unfolding close_tracked
close_tracked-IsValid tracked r v =
    let closed = close_conn-IsValid tracked.conn r v in
    elim (Option-cases (lookup tracked.ref.id r.exposures)) [
      | inl e ↦ rw (e, close_tracked) (ground arith)
      | inr (state, e) ↦
          let left : ExposureState = record state {
            conns = remove_conn tracked.conn state.conns;
          } in
          rw (e, close_tracked)
            (ground (
              arith,
              v.within tracked.ref.id state,
              write_state-IsValid tracked.ref state left (close_conn tracked.conn r) e refl,
            ))
    ]
