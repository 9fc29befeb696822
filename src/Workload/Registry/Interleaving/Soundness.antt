-- ===== src/Workload/Registry/Interleaving/Soundness.antt =====
-- What holds after every interleaving of sections.
use agent_sandbox_platform.Base.{
  ℕ, ◌+◌, ◌≤◌, ◌<◌, ◌≡◌, refl, ap, Bool, inl, inr, true, List, [], ◌∷◌, Option, some, Bytes, arith,
  bytes_eq, Option-cases, length, Bool-cases,
}
use agent_sandbox_platform.Base.Int.{ℤ, pos, leb_ℤ}
use agent_sandbox_platform.Base.Dict.{lookup}
use agent_sandbox_platform.Workload.Registry.{
  Event, Exposure, ExposureState, Registry, ref_for, or_zero, new_registry,
}
use agent_sandbox_platform.Workload.Registry.Sections.{
  Found, live, expired, missing, capped, uint64_mod, lookup_section,
}
use agent_sandbox_platform.Workload.Registry.Invariant.{IsValid, revoke_ref-IsValid}
use agent_sandbox_platform.Workload.Registry.Invariant.Register.{register_section-IsValid}
use agent_sandbox_platform.Workload.Registry.Invariant.Credentials.{
  consume_section-IsValid, store_section-IsValid, authenticate_section-IsValid,
}
use agent_sandbox_platform.Workload.Registry.Invariant.Connections.{
  acquire-IsValid, release-IsValid, track_connection-IsValid, close_tracked-IsValid,
}
use agent_sandbox_platform.Workload.Registry.Evolution.{
  Evolves, Evolves-revoke_ref, Evolves-register_section, Evolves-consume_section,
  Evolves-store_section, Evolves-authenticate_section, Evolves-acquire, Evolves-release,
  Evolves-track_connection, Evolves-close_tracked, exposure_of,
}
use agent_sandbox_platform.Workload.Registry.Interleaving.{
  World, Section, draws, shuts_down, registers, looks_up, revokes, consumes, stores, authenticates,
  acquires, releases, tracks, closes, get_elem?, learn, with_known, step, run, step-Evolves,
}

-- The registry is valid, and an exposure that a caller found is the registered one whenever their
-- IDs and generations agree.
pub record IsSound (w : World) : Type 0 where
  pub valid : IsValid w.registry
  pub past :
      (i : ℕ) (e : Exposure) → get_elem? w.known i ≡ some e → e.generation ≤ w.registry.next_gen
  pub same :
      (i : ℕ) (e x : Exposure)
      → get_elem? w.known i ≡ some e
      → exposure_of (lookup e.id w.registry.exposures) ≡ some x
      → x.generation ≡ e.generation
      → x ≡ e

evolve-IsSound :
    (w : World) (r : Registry)
    → IsSound w
    → IsValid r
    → Evolves w.registry r
    → IsSound (record w { registry = r })
evolve-IsSound w r h v ev = record {
  valid = v;
  past = λ i e k. omega (arith, ev.grows, h.past i e k);
  same = λ i e x k l g. h.same i e x k (ev.origin e.id x l (omega (arith, h.past i e k))) g;
}

with_known-IsSound :
    (w : World) (i : ℕ) (f : Exposure → Registry)
    → IsSound w
    → ((e : Exposure) → get_elem? w.known i ≡ some e → IsValid (f e))
    → ((e : Exposure) → Evolves w.registry (f e))
    → IsSound (with_known w i f)
unfolding with_known
with_known-IsSound w i f h v ev = elim (Option-cases (get_elem? w.known i)) [
  | inl e ↦ rw (e, with_known) h
  | inr (x, e) ↦ rw (e, with_known) (evolve-IsSound w (f x) h (v x e) (ev x))
]

-- What a lookup finds is registered under its ID.
lookup_section-live :
    (now : ℕ) (canonical : Bytes) (r : Registry) (e : Exposure)
    → IsValid r
    → lookup_section now canonical r ≡ live e
    → exposure_of (lookup e.id r.exposures) ≡ some e
unfolding lookup_section or_zero
lookup_section-live now canonical r e v h = elim (Option-cases (lookup canonical r.hosts)) [
  | inl p ↦ ground arith
  | inr (ref, p) ↦ elim (Option-cases (lookup ref.id r.exposures)) [
    | inl q ↦ ground arith
    | inr (state, q) ↦ ground (arith, v.named ref.id state q)
  ]
]

learn-IsSound :
    (w : World) (found : Found)
    → IsSound w
    → ((e : Exposure) → found ≡ live e → exposure_of (lookup e.id w.registry.exposures) ≡ some e)
    → IsSound (record w { known = learn found w.known })
learn-IsSound w (expired ref) h f = h
learn-IsSound w missing h f = h
learn-IsSound w (live e) h f = record { valid = h.valid; past = learnt_past; same = learnt_same }
  where
    learnt_past :
        (i : ℕ) (x : Exposure)
        → get_elem? (e ∷ w.known) i ≡ some x
        → x.generation ≤ w.registry.next_gen
    learnt_past ℕ.zero x k = elim (Option-cases (lookup e.id w.registry.exposures)) [
      | inl q ↦ ground (arith, f e refl)
      | inr (state, q) ↦ ground (arith, f e refl, h.valid.numbered e.id state q)
    ]
    learnt_past (ℕ.suc i) x k = h.past i x k

    learnt_same :
        (i : ℕ) (x y : Exposure)
        → get_elem? (e ∷ w.known) i ≡ some x
        → exposure_of (lookup x.id w.registry.exposures) ≡ some y
        → y.generation ≡ x.generation
        → y ≡ x
    learnt_same ℕ.zero x y k l g = ground (arith, f e refl)
    learnt_same (ℕ.suc i) x y k l g = h.same i x y k l g

-- The random reader and the flag `closed` are in no clause of the invariant.
untouched-IsValid :
    (r : Registry) (left : Bytes) (closed : Bool)
    → IsValid r
    → IsValid (record r { random = left; closed = closed })
untouched-IsValid r left closed v = record {
  named = v.named;
  numbered = v.numbered;
  within = v.within;
  listed = v.listed;
  host_backed = v.host_backed;
  capability_backed = v.capability_backed;
  session_backed = v.session_backed;
}

untouched-Evolves :
    (r : Registry) (left : Bytes) (closed : Bool)
    → Evolves r (record r { random = left; closed = closed })
untouched-Evolves r left closed = record {
  grows = omega arith;
  slowly = omega arith;
  origin = λ id e h g. h;
}

-- A session of a known exposure does not outlive the registration.
capped_short :
    (w : World) (i asked : ℕ) (e : Exposure) (state : ExposureState)
    → IsSound w
    → get_elem? w.known i ≡ some e
    → lookup e.id w.registry.exposures ≡ some state
    → state.exposure.generation ≡ e.generation
    → capped asked w.registry.session_ttl e.expires_at ≤ state.exposure.expires_at
capped_short w i asked e state h k l g =
    ground (arith, h.same i e state.exposure k (ap exposure_of l) g)

-- One section keeps a sound world sound.
step-IsSound :
    (s : Section) (w : World)
    → w.registry.next_gen + 1 < uint64_mod
    → IsSound w
    → IsSound (step s w)
unfolding step
step-IsSound (draws left) w room h =
    evolve-IsSound w _ h (untouched-IsValid w.registry left w.registry.closed h.valid)
      (untouched-Evolves w.registry left w.registry.closed)
step-IsSound shuts_down w room h =
    evolve-IsSound w _ h (untouched-IsValid w.registry w.registry.random true h.valid)
      (untouched-Evolves w.registry w.registry.random true)
step-IsSound (registers now reg host digest) w room h =
    elim (Bool-cases (leb_ℤ reg.max_connections (pos 0))) [
      | inl refused ↦ rw refused h
      | inr allowed ↦ rw allowed (
          evolve-IsSound w _ h
            (register_section-IsValid now reg host digest w.registry room (ground arith) h.valid)
            (Evolves-register_section now reg host digest w.registry room))
    ]
step-IsSound (looks_up now canonical) w room h =
    learn-IsSound w (lookup_section now canonical w.registry) h
      (λ e. lookup_section-live now canonical w.registry e h.valid)
step-IsSound (revokes ref outcome) w room h =
    evolve-IsSound w _ h (revoke_ref-IsValid ref outcome w.registry h.valid)
      (Evolves-revoke_ref ref outcome w.registry)
step-IsSound (consumes now i digest) w room h =
    with_known-IsSound w i _ h
      (λ e _. consume_section-IsValid now (ref_for e) digest w.registry h.valid)
      (λ e. Evolves-consume_section now (ref_for e) digest w.registry)
step-IsSound (stores asked now i digest) w room h =
    with_known-IsSound w i _ h
      (λ e k.
        store_section-IsValid now (ref_for e) digest _ w.registry h.valid
          (λ state l g. capped_short w i asked e state h k l g))
      (λ e. Evolves-store_section now (ref_for e) digest _ w.registry)
step-IsSound (authenticates now i digest) w room h =
    with_known-IsSound w i _ h
      (λ e _. authenticate_section-IsValid now (ref_for e) digest w.registry h.valid)
      (λ e. Evolves-authenticate_section now (ref_for e) digest w.registry)
step-IsSound (acquires now i) w room h =
    with_known-IsSound w i _ h (λ e _. acquire-IsValid now e w.registry h.valid)
      (λ e. Evolves-acquire now e w.registry)
step-IsSound (releases slot) w room h =
    evolve-IsSound w _ h (release-IsValid slot w.registry h.valid) (Evolves-release slot w.registry)
step-IsSound (tracks now i conn) w room h =
    with_known-IsSound w i _ h (λ e _. track_connection-IsValid now e conn w.registry h.valid)
      (λ e. Evolves-track_connection now e conn w.registry)
step-IsSound (closes tracked) w room h =
    evolve-IsSound w _ h (close_tracked-IsValid tracked w.registry h.valid)
      (Evolves-close_tracked tracked w.registry)

run-IsSound :
    (ss : List Section) (w : World)
    → w.registry.next_gen + length ss < uint64_mod
    → IsSound w
    → IsSound (run ss w)
unfolding run
run-IsSound [] w room h = h
run-IsSound (s ∷ ss) w room h =
    let slow = (step-Evolves s w (omega arith)).slowly in
    run-IsSound ss (step s w) (omega arith) (step-IsSound s w (omega arith) h)

new_registry-IsSound :
    (random : Bytes) (session_ttl bootstrap_ttl : ℤ) (events : Option (List Event))
    → IsSound
        (record { registry = new_registry random session_ttl bootstrap_ttl events; known = [] })
unfolding new_registry lookup
new_registry-IsSound random session_ttl bootstrap_ttl events = record {
  valid = record {
    named = λ id state e. ground arith;
    numbered = λ id state e. ground arith;
    within = λ id state e. ground arith;
    listed = λ id state e. ground arith;
    host_backed = λ h ref e. ground arith;
    capability_backed = λ d c e. ground arith;
    session_backed = λ d c e. ground arith;
  };
  past = λ i e h. ground arith;
  same = λ i e x h l g. ground arith;
}

-- From a new registry, after the sections of concurrent calls in any order, as long as the 64-bit
-- generation counter cannot have wrapped: every capability, session and host belongs to a
-- registered exposure that it does not outlive, the connections in use are within each exposure's
-- limit, and an exposure that a caller has found is the registered one whenever their IDs and
-- generations agree.
pub run-new_registry-IsSound :
    (random : Bytes) (session_ttl bootstrap_ttl : ℤ) (events : Option (List Event))
    (ss : List Section)
    → length ss < uint64_mod
    → IsSound (
        run ss
          (record { registry = new_registry random session_ttl bootstrap_ttl events; known = [] }))
run-new_registry-IsSound random session_ttl bootstrap_ttl events ss room =
    run-IsSound ss _ (unfold new_registry in omega arith)
      (new_registry-IsSound random session_ttl bootstrap_ttl events)
