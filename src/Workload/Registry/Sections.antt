-- ===== src/Workload/Registry/Sections.antt =====
-- The critical sections of the registry's methods: what each does under `r.mu` at one time.
use agent_sandbox_platform.Base.{
  ℕ, ◌+◌, ◌-◌, ◌^◌, ◌%◌, Bool, true, false, not, ◌&&◌, ◌||◌, List, [], ◌∷◌, ◌++◌, Option, none,
  some, Bytes, ◌==◌, contains, ltb, if◌then◌else◌, bytes_eq, nat_eq,
}
use agent_sandbox_platform.Base.Int.{pos, leb_ℤ}
use agent_sandbox_platform.Base.Dict.{lookup, insert, erase}
use agent_sandbox_platform.Base.Result.{Result, ok, err}
use agent_sandbox_platform.Workload.Registry.{
  AuthError, unauthorized, connection_limit, failed, Event, Registration, Exposure, ExposureRef,
  CredentialRecord, ExposureState, Registry, ref_eq, or_zero, ref_for, state_matches, state_live,
  emit,
}

-- What `Acquire` returns: the release of one slot, once.
pub record Slot : Type 0 where
  pub ref : ExposureRef
  pub released : Bool

-- `trackedConn`; `done` is the state of its `sync.Once`.
pub record TrackedConn : Type 0 where
  pub ref : ExposureRef
  pub conn : ℕ
  pub done : Bool

abbrev pub uint64_mod : ℕ
uint64_mod = 2 ^ 64

-- `_, exists := m[k]`
abbrev pub exists {ℓ} : {A : Type ℓ} → Option A → Bool
exists none = false
exists (some a) = true

-- The first instant after `now` at which a credential of this lifetime is no longer good: it never
-- outlives the exposure.
abbrev pub capped : ℕ → ℕ → ℕ → ℕ
capped now ttl expires_at = if ltb expires_at (now + ttl) then expires_at else now + ttl

abbrev pub registered : Registration → Bytes → ℕ → Exposure
registered reg host generation = record {
  id = reg.exposure_id;
  host = host;
  expires_at = reg.expires_at;
  allow_web_socket = reg.allow_web_socket;
  max_connections = reg.max_connections;
  generation = generation;
}

-- `r.nextGen++`
abbrev pub next_generation : Registry → ℕ
next_generation r = (r.next_gen + 1) % uint64_mod

abbrev pub new_state : Registration → Bytes → ℕ → ExposureState
new_state reg host generation = record {
  exposure = registered reg host generation;
  active = 0;
  timer = some reg.expires_at;
  conns = [];
}

abbrev pub new_capability : ℕ → Registration → Bytes → Registry → CredentialRecord
new_capability now reg host r = record {
  exposure = ref_for (registered reg host (next_generation r));
  expires_at = capped now r.bootstrap_ttl reg.expires_at;
}

unfoldable pub insert_exposure : ℕ → Registration → Bytes → Bytes → Registry → Registry
insert_exposure now reg host digest r =
    let generation = next_generation r in
    record r {
      next_gen = generation;
      exposures = insert reg.exposure_id (new_state reg host generation) r.exposures;
      hosts = insert host (ref_for (registered reg host generation)) r.hosts;
      capabilities = insert digest (new_capability now reg host r) r.capabilities;
    }

abbrev pub registered_event : Registration → Event
registered_event reg = record {
  exposure_id = reg.exposure_id;
  kind = "register";
  outcome = "allowed";
}

-- The section of `Register` under the lock; the event follows the unlock.
unfoldable pub register_section :
    ℕ → Registration → Bytes → Bytes → Registry → Result AuthError (Unit {0}) × Registry
unfolding insert_exposure emit
register_section now reg host digest r =
    if r.closed
    then (err (failed "registry is closed"), r)
    else if exists (lookup reg.exposure_id r.exposures)
    then (err (failed "exposure already exists"), r)
    else if exists (lookup host r.hosts)
    then (err (failed "exposure host already exists"), r)
    else if not (ltb now reg.expires_at)
    then (err (failed "exposure expiry must be in the future"), r)
    else (ok tt, emit (registered_event reg) (insert_exposure now reg host digest r))

-- What a lookup of a host finds: the last two are refused, and the second is then revoked.
pub data Found : Type 0 where
  live : Exposure → Found
  expired : ExposureRef → Found
  missing : Found

unfoldable pub lookup_state : ℕ → ExposureRef → Option ExposureState → Found
lookup_state now ref none = missing
lookup_state now ref (some state) =
    if state_live (some state) ref now
    then live state.exposure
    else if state_matches (some state) ref
    then expired ref
    else missing

-- The section of `LookupHost`, which changes nothing.
unfoldable pub lookup_section : ℕ → Bytes → Registry → Found
unfolding lookup_state or_zero
lookup_section now canonical r =
    let found = lookup canonical r.hosts in
    let ref = or_zero found in
    let state = lookup ref.id r.exposures in
    if exists found
    then lookup_state now ref state
    else if state_matches state ref
    then expired ref
    else missing

-- The section of `Exchange` that spends the capability.
unfoldable pub consume_section : ℕ → ExposureRef → Bytes → Registry → Bool × Registry
consume_section now ref digest r = elim (lookup digest r.capabilities) [
  | none ↦ (false, r)
  | some capability ↦
      let spent = record r { capabilities = erase digest r.capabilities } in
      let stale = not (ltb now capability.expires_at) in
      if not (capability.exposure == ref)
        || not (state_matches (lookup ref.id r.exposures) ref)
        || stale
      then (false, if stale then spent else r)
      else (true, spent)
]

-- The section of `Exchange` that stores the session.
unfoldable pub store_section : ℕ → ExposureRef → Bytes → ℕ → Registry → Bool × Registry
store_section now ref digest expires_at r =
    if state_live (lookup ref.id r.exposures) ref now
    then (
      true,
      record r {
        sessions = insert digest (record { exposure = ref; expires_at = expires_at }) r.sessions;
      },
    )
    else (false, r)

-- The section of `Authenticate`.
unfoldable pub authenticate_section : ℕ → ExposureRef → Bytes → Registry → Bool × Registry
authenticate_section now ref digest r = elim (lookup digest r.sessions) [
  | none ↦ (false, r)
  | some session ↦
      let stale = not (ltb now session.expires_at) in
      if not (session.exposure == ref)
        || not (state_matches (lookup ref.id r.exposures) ref)
        || stale
      then (false, if stale then record r { sessions = erase digest r.sessions } else r)
      else (true, r)
]

-- `state.active++`, `state.active--` and the changes of `state.conns` write through the pointer.
abbrev pub write_state : ExposureRef → ExposureState → Registry → Registry
write_state ref state r = record r { exposures = insert ref.id state r.exposures }

-- `Acquire`
unfoldable pub acquire : ℕ → Exposure → Registry → Result AuthError Slot × Registry
acquire now exposure r =
    let ref = ref_for exposure in
    elim (lookup ref.id r.exposures) [
      | none ↦ (err unauthorized, r)
      | some state ↦
          if not (state_live (some state) ref now)
          then (err unauthorized, r)
          else if leb_ℤ state.exposure.max_connections (pos state.active)
          then (err connection_limit, r)
          else (
            ok (record { ref = ref; released = false }),
            write_state ref (record state { active = state.active + 1 }) r,
          )
    ]

-- The function that `Acquire` returns.
unfoldable pub release : Slot → Registry → Slot × Registry
release slot r = if slot.released then (slot, r) else (
  record slot { released = true },
  elim (lookup slot.ref.id r.exposures) [
    | none ↦ r
    | some state ↦
        if state_matches (some state) slot.ref && ltb 0 state.active
        then write_state slot.ref (record state { active = state.active - 1 }) r
        else r
  ],
)

pub add_conn : ℕ → List ℕ → List ℕ
add_conn conn conns = if contains conns conn then conns else conns ++ (conn ∷ [])

pub remove_conn : ℕ → List ℕ → List ℕ
remove_conn conn [] = []
remove_conn conn (c ∷ conns) =
    let rest = remove_conn conn conns in if conn == c then rest else c ∷ rest

abbrev pub close_conn : ℕ → Registry → Registry
close_conn conn r = record r { closed_conns = r.closed_conns ++ (conn ∷ []) }

-- `TrackConnection`
unfoldable pub track_connection :
    ℕ → Exposure → ℕ → Registry → Result AuthError TrackedConn × Registry
unfolding add_conn
track_connection now exposure conn r =
    let ref = ref_for exposure in
    elim (lookup ref.id r.exposures) [
      | none ↦ (err unauthorized, close_conn conn r)
      | some state ↦
          if not (state_live (some state) ref now) then (err unauthorized, close_conn conn r) else (
            ok (record { ref = ref; conn = conn; done = false }),
            write_state ref (record state { conns = add_conn conn state.conns }) r,
          )
    ]

-- `trackedConn.Close`
unfoldable pub close_tracked : TrackedConn → Registry → TrackedConn × Registry
unfolding remove_conn
close_tracked tracked r =
    let closed = close_conn tracked.conn r in
    if tracked.done then (tracked, closed) else (
      record tracked { done = true },
      elim (lookup tracked.ref.id r.exposures) [
        | none ↦ closed
        | some state ↦
            if state_matches (some state) tracked.ref
            then write_state tracked.ref
                (record state { conns = remove_conn tracked.conn state.conns }) closed
            else closed
      ],
    )
