-- ===== src/Workload/Registry/Interleaving/Revocation.antt =====
-- Revocation is final, and a capability is good for one exchange, in every interleaving.
use agent_sandbox_platform.Base.{
  ℕ, ◌+◌, ◌≤◌, ◌<◌, ◌≡◌, ◌≢◌, inl, inr, Bool, true, false, not, List, [], ◌∷◌, none, some, String,
  Bytes, ◌==◌, arith, bytes_eq, Option-cases, length, all,
}
use agent_sandbox_platform.Base.Dict.{lookup, lookup-insert, lookup-erase, lookup-erase_where}
use agent_sandbox_platform.Base.Result.{err}
use agent_sandbox_platform.Workload.Registry.{
  unauthorized, Exposure, ExposureRef, ExposureState, Registry, ref_for, state_matches, revoke_ref,
  held_by, emit,
}
use agent_sandbox_platform.Workload.Registry.Sections.{
  uint64_mod, register_section, consume_section, store_section, authenticate_section, acquire,
  track_connection, insert_exposure, new_capability, release, close_tracked,
}
use agent_sandbox_platform.Workload.Registry.Invariant.{IsValid}
use agent_sandbox_platform.Workload.Registry.Evolution.{Evolves, exposure_of}
use agent_sandbox_platform.Workload.Registry.Interleaving.{
  World, Section, draws, shuts_down, registers, looks_up, revokes, consumes, stores, authenticates,
  acquires, releases, tracks, closes, with_known, step, run, step-Evolves,
}

-- The registration has ended, and its generation is used up.
record Gone (ref : ExposureRef) (r : Registry) : Type 0 where
  past : ref.generation ≤ r.next_gen
  absent :
      (e : Exposure)
      → exposure_of (lookup ref.id r.exposures) ≡ some e
      → e.generation ≢ ref.generation

Gone-Evolves : (ref : ExposureRef) (r s : Registry) → Evolves r s → Gone ref r → Gone ref s
Gone-Evolves ref r s ev g = record {
  past = omega (arith, ev.grows, g.past);
  absent = λ e l same. g.absent e (ev.origin ref.id e l (omega (arith, g.past))) same;
}

Gone-run :
    (ref : ExposureRef) (ss : List Section) (w : World)
    → w.registry.next_gen + length ss < uint64_mod
    → Gone ref w.registry
    → Gone ref (run ss w).registry
unfolding run
Gone-run ref [] w room g = g
Gone-run ref (s ∷ ss) w room g =
    let ev = step-Evolves s w (omega arith) in
    let slow = ev.slowly in
    Gone-run ref ss (step s w) (omega arith) (Gone-Evolves ref w.registry _ ev g)

Gone-revoke_ref :
    (ref : ExposureRef) (outcome : String) (r : Registry)
    → ref.generation ≤ r.next_gen
    → ((id : Bytes) (s : ExposureState) → lookup id r.exposures ≡ some s → s.exposure.id ≡ id)
    → Gone ref (revoke_ref ref outcome r)
unfolding revoke_ref emit
Gone-revoke_ref ref outcome r past named = elim (Option-cases (lookup ref.id r.exposures)) [
  | inl p ↦ record { past = ground arith; absent = λ e. ground arith }
  | inr (state, p) ↦ record {
    past = ground arith;
    absent = λ e. ground (arith, named ref.id state p, lookup-erase ref.id ref.id r.exposures);
  }
]

Gone-matches :
    (ref : ExposureRef) (r : Registry)
    → Gone ref r
    → state_matches (lookup ref.id r.exposures) ref ≡ false
Gone-matches ref r g = elim (Option-cases (lookup ref.id r.exposures)) [
  | inl p ↦ ground arith
  | inr (state, p) ↦ ground (arith, g.absent state.exposure)
]

-- Every way to use the registration of an exposure is refused.
pub record IsDenied (e : Exposure) (r : Registry) : Type 0 where
  pub no_session : (now : ℕ) (d : Bytes) → (authenticate_section now (ref_for e) d r).0 ≡ false
  pub no_exchange : (now : ℕ) (d : Bytes) → (consume_section now (ref_for e) d r).0 ≡ false
  pub no_new_session :
      (now : ℕ) (d : Bytes) (t : ℕ) → (store_section now (ref_for e) d t r).0 ≡ false
  pub no_slot : (now : ℕ) → (acquire now e r).0 ≡ err unauthorized
  pub no_connection : (now conn : ℕ) → (track_connection now e conn r).0 ≡ err unauthorized

unmatched-IsDenied :
    (e : Exposure) (r : Registry)
    → state_matches (lookup e.id r.exposures) (ref_for e) ≡ false
    → IsDenied e r
unfolding authenticate_section consume_section store_section acquire track_connection
unmatched-IsDenied e r h = record {
  no_session = λ now d. ground arith;
  no_exchange = λ now d. ground arith;
  no_new_session = λ now d t. ground arith;
  no_slot = λ now. ground arith;
  no_connection = λ now conn. ground arith;
}

next_gen-revoke_ref :
    (ref : ExposureRef) (outcome : String) (r : Registry)
    → (revoke_ref ref outcome r).next_gen ≡ r.next_gen
unfolding revoke_ref emit
next_gen-revoke_ref ref outcome r = ground arith

-- In a valid registry, once the registration that an exposure was found under is revoked or has
-- expired, every use of the exposure is refused, whatever sections of other calls run afterwards, a
-- new registration under the same ID included, as long as the 64-bit generation counter cannot have
-- wrapped: no session of it authenticates, no capability is exchanged, no session is stored, no
-- slot is given and no connection is tracked.
pub revoked-IsDenied :
    (e : Exposure) (outcome : String) (ss : List Section) (w : World)
    → w.registry.next_gen + length ss < uint64_mod
    → e.generation ≤ w.registry.next_gen
    → IsValid w.registry
    → IsDenied e
        (run ss (record w { registry = revoke_ref (ref_for e) outcome w.registry })).registry
revoked-IsDenied e outcome ss w room past v = unmatched-IsDenied e _ (
    Gone-matches (ref_for e) _ (
      Gone-run (ref_for e) ss _ (omega (arith, next_gen-revoke_ref (ref_for e) outcome w.registry))
        (Gone-revoke_ref (ref_for e) outcome w.registry past v.named)))

-- The section stores a capability with this digest.
abbrev pub issues : Bytes → Section → Bool
issues digest (registers now reg host d) = d == digest
issues digest (draws left) = false
issues digest _ = false

Spent-step :
    (digest : Bytes) (s : Section) (w : World)
    → issues digest s ≡ false
    → lookup digest w.registry.capabilities ≡ none
    → lookup digest (step s w).registry.capabilities ≡ none
unfolding step with_known
Spent-step digest (draws left) w other h = h
Spent-step digest shuts_down w other h = h
Spent-step digest (registers now reg host d) w other h =
    unfold register_section insert_exposure emit in
    ground (
      arith,
      lookup-insert digest d (new_capability now reg host w.registry) w.registry.capabilities,
    )
Spent-step digest (looks_up now canonical) w other h = h
Spent-step digest (revokes ref outcome) w other h =
    unfold revoke_ref emit in
    ground (arith, lookup-erase_where digest (held_by ref) w.registry.capabilities)
Spent-step digest (consumes now i d) w other h =
    unfold consume_section in ground (arith, lookup-erase digest d w.registry.capabilities)
Spent-step digest (stores asked now i d) w other h = unfold store_section in ground arith
Spent-step digest (authenticates now i d) w other h = unfold authenticate_section in ground arith
Spent-step digest (acquires now i) w other h = unfold acquire in ground arith
Spent-step digest (releases slot) w other h = unfold release in ground arith
Spent-step digest (tracks now i conn) w other h = unfold track_connection in ground arith
Spent-step digest (closes tracked) w other h = unfold close_tracked in ground arith

Spent-run :
    (digest : Bytes) (ss : List Section) (w : World)
    → all (λ s. not (issues digest s)) ss ≡ true
    → lookup digest w.registry.capabilities ≡ none
    → lookup digest (run ss w).registry.capabilities ≡ none
unfolding run
Spent-run digest [] w other h = h
Spent-run digest (s ∷ ss) w other h =
    Spent-run digest ss (step s w) (ground arith) (Spent-step digest s w (ground arith) h)

consume-spends :
    (now : ℕ) (ref : ExposureRef) (digest : Bytes) (r : Registry)
    → (consume_section now ref digest r).0 ≡ true
    → lookup digest (consume_section now ref digest r).1.capabilities ≡ none
unfolding consume_section
consume-spends now ref digest r h = ground (arith, lookup-erase digest digest r.capabilities)

consume_missing :
    (now : ℕ) (ref : ExposureRef) (digest : Bytes) (r : Registry)
    → lookup digest r.capabilities ≡ none
    → (consume_section now ref digest r).0 ≡ false
unfolding consume_section
consume_missing now ref digest r h = rw (h, consume_section)

-- A capability is good for one exchange: after one has spent it, no other does, at any time, for any
-- exposure, and whatever sections of other calls run in between, unless one of them registers a
-- capability with the same digest.
pub consume_once :
    (now later : ℕ) (ref other : ExposureRef) (digest : Bytes) (ss : List Section) (w : World)
    → (consume_section now ref digest w.registry).0 ≡ true
    → all (λ s. not (issues digest s)) ss ≡ true
    → (consume_section later other digest
        (run ss (record w { registry = (consume_section now ref digest w.registry).1 })).registry).0
      ≡ false
consume_once now later ref other digest ss w h fresh =
    consume_missing later other digest _
      (Spent-run digest ss _ fresh (consume-spends now ref digest w.registry h))
