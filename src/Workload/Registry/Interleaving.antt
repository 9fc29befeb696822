-- ===== src/Workload/Registry/Interleaving.antt =====
-- Every order in which the sections of concurrent calls can run. A caller that has looked a host up
-- goes on with the exposure it found, whatever ran in between; `known` keeps what was found.
pub mod Soundness
pub mod Revocation
use agent_sandbox_platform.Base.{
  ◌+◌, ◌<◌, ◌≡◌, inl, inr, arith, Option-cases, ℕ, ◌+◌, ◌≤◌, ◌<◌, ◌≡◌, refl, inl, inr, true, false,
  List, [], ◌∷◌, Option, none, some, String, Bytes, arith, bytes_eq, if◌then◌else◌, Option-cases,
  All,
}
use agent_sandbox_platform.Base.Int.{pos, leb_ℤ}
use agent_sandbox_platform.Base.Dict.{lookup, lookup-insert, lookup-erase}
use agent_sandbox_platform.Workload.Registry.{
  Registration, Exposure, ExposureRef, ExposureState, Registry, ref_for, revoke_ref,
}
use agent_sandbox_platform.Workload.Registry.Sections.{
  Slot, TrackedConn, Found, live, expired, missing, capped, uint64_mod, register_section,
  lookup_section, consume_section, store_section, authenticate_section, acquire, release,
  track_connection, close_tracked,
}
use agent_sandbox_platform.Workload.Registry.Invariant.{IsValid}
use agent_sandbox_platform.Workload.Registry.Sections.{uint64_mod}
use agent_sandbox_platform.Workload.Registry.Evolution.{
  Evolves, Evolves-refl, Evolves-revoke_ref, Evolves-register_section, Evolves-consume_section,
  Evolves-store_section, Evolves-authenticate_section, Evolves-acquire, Evolves-release,
  Evolves-track_connection, Evolves-close_tracked,
}

-- `registers` runs behind the checks of `Register`, of which it needs the one on the connections;
-- `stores` behind a reading of the clock (its second number) that the session's expiry is taken from.
pub data Section : Type 0 where
  draws : Bytes → Section
  shuts_down : Section
  registers : ℕ → Registration → Bytes → Bytes → Section
  looks_up : ℕ → Bytes → Section
  revokes : ExposureRef → String → Section
  consumes : ℕ → ℕ → Bytes → Section
  stores : ℕ → ℕ → ℕ → Bytes → Section
  authenticates : ℕ → ℕ → Bytes → Section
  acquires : ℕ → ℕ → Section
  releases : Slot → Section
  tracks : ℕ → ℕ → ℕ → Section
  closes : TrackedConn → Section

pub record World : Type 0 where
  pub registry : Registry
  pub known : List Exposure

abbrev pub get_elem? {ℓ} : {A : Type ℓ} → List A → ℕ → Option A
get_elem? [] i = none
get_elem? (x ∷ xs) ℕ.zero = some x
get_elem? (x ∷ xs) (ℕ.suc i) = get_elem? xs i

abbrev pub learn : Found → List Exposure → List Exposure
learn (live exposure) known = exposure ∷ known
learn (expired ref) known = known
learn missing known = known

-- A section of a call that holds a known exposure.
unfoldable pub with_known : World → ℕ → (Exposure → Registry) → World
with_known w i f = elim (get_elem? w.known i) [
  | none ↦ w
  | some exposure ↦ record w { registry = f exposure }
]

unfoldable pub step : Section → World → World
unfolding with_known
step (draws left) w = record w { registry = record w.registry { random = left } }
step shuts_down w = record w { registry = record w.registry { closed = true } }
step (registers now reg host digest) w =
    if leb_ℤ reg.max_connections (pos 0)
    then w
    else record w { registry = (register_section now reg host digest w.registry).1 }
step (looks_up now canonical) w = record w {
  known = learn (lookup_section now canonical w.registry) w.known;
}
step (revokes ref outcome) w = record w { registry = revoke_ref ref outcome w.registry }
step (consumes now i digest) w =
    with_known w i λ e. (consume_section now (ref_for e) digest w.registry).1
step (stores asked now i digest) w = with_known w i λ e.
    (store_section now (ref_for e) digest (capped asked w.registry.session_ttl e.expires_at)
      w.registry).1
step (authenticates now i digest) w =
    with_known w i λ e. (authenticate_section now (ref_for e) digest w.registry).1
step (acquires now i) w = with_known w i λ e. (acquire now e w.registry).1
step (releases slot) w = record w { registry = (release slot w.registry).1 }
step (tracks now i conn) w = with_known w i λ e. (track_connection now e conn w.registry).1
step (closes tracked) w = record w { registry = (close_tracked tracked w.registry).1 }

unfoldable pub run : List Section → World → World
unfolding step
run [] w = w
run (s ∷ ss) w = run ss (step s w)

with_known-Evolves :
    (w : World) (i : ℕ) (f : Exposure → Registry)
    → ((e : Exposure) → Evolves w.registry (f e))
    → Evolves w.registry (with_known w i f).registry
unfolding with_known
with_known-Evolves w i f ev = elim (Option-cases (get_elem? w.known i)) [
  | inl e ↦ rw (e, with_known) (Evolves-refl w.registry)
  | inr (x, e) ↦ rw (e, with_known) (ev x)
]

-- Every section changes the set of registrations in the ways of `Evolves` only.
pub step-Evolves :
    (s : Section) (w : World)
    → w.registry.next_gen + 1 < uint64_mod
    → Evolves w.registry (step s w).registry
unfolding step
step-Evolves (draws left) w room = record {
  grows = omega arith;
  slowly = omega arith;
  origin = λ id e h g. h;
}
step-Evolves shuts_down w room = record {
  grows = omega arith;
  slowly = omega arith;
  origin = λ id e h g. h;
}
step-Evolves (registers now reg host digest) w room =
    ground
      (arith, Evolves-refl w.registry, Evolves-register_section now reg host digest w.registry room)
step-Evolves (looks_up now canonical) w room = Evolves-refl w.registry
step-Evolves (revokes ref outcome) w room = Evolves-revoke_ref ref outcome w.registry
step-Evolves (consumes now i digest) w room =
    with_known-Evolves w i _ λ e. Evolves-consume_section now (ref_for e) digest w.registry
step-Evolves (stores asked now i digest) w room =
    with_known-Evolves w i _ λ e. Evolves-store_section now (ref_for e) digest _ w.registry
step-Evolves (authenticates now i digest) w room =
    with_known-Evolves w i _ λ e. Evolves-authenticate_section now (ref_for e) digest w.registry
step-Evolves (acquires now i) w room =
    with_known-Evolves w i _ λ e. Evolves-acquire now e w.registry
step-Evolves (releases slot) w room = Evolves-release slot w.registry
step-Evolves (tracks now i conn) w room =
    with_known-Evolves w i _ λ e. Evolves-track_connection now e conn w.registry
step-Evolves (closes tracked) w room = Evolves-close_tracked tracked w.registry
