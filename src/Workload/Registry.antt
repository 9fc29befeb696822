-- ===== src/Workload/Registry.antt =====
-- apps/workload-router/internal/auth/registry.go: exposures, one-time capabilities, sessions and
-- the connections that revocation closes.
--
-- Every method is the sequence of its critical sections (what it does under `r.mu`), each a
-- function of its own on the registry, so that the calls of other goroutines can come between them.
-- Times are nanoseconds that a section gets as an argument, one for each reading of the clock.
-- A connection is a number; the registry's calls of `Close` on it are kept in `closed_conns`.
pub mod Sections
pub mod Methods
pub mod Invariant
pub mod Evolution
pub mod Interleaving
pub mod Sessions
mod Examples
use agent_sandbox_platform.Base.{
  ℕ, String, Bool, true, false, not, ◌&&◌, List, [], ◌∷◌, ◌++◌, Option, none, some, map, Bytes, Eq,
  ◌==◌, ltb, eqb, if◌then◌else◌, length, ℕ_discrete, bytes_eq,
}
use agent_sandbox_platform.Base.Int.{ℤ, pos}
use agent_sandbox_platform.Base.Dict.{Dict, lookup, erase, erase_where}
use agent_sandbox_platform.Codec.Base64

pub data AuthError : Type 0 where
  unauthorized connection_limit : AuthError
  -- `fmt.Errorf`, by its message
  failed : String → AuthError

pub record Event : Type 0 where
  pub exposure_id : Bytes
  pub kind : String
  pub outcome : String

pub record Registration : Type 0 where
  pub exposure_id : Bytes
  pub host : Bytes
  pub expires_at : ℕ
  pub allow_web_socket : Bool
  pub max_connections : ℤ

pub record Exposure : Type 0 where
  pub id : Bytes
  pub host : Bytes
  pub expires_at : ℕ
  pub allow_web_socket : Bool
  pub max_connections : ℤ
  pub generation : ℕ

pub record ExposureRef : Type 0 where
  pub id : Bytes
  pub generation : ℕ

ExposureRef-discrete : Discrete ExposureRef
ExposureRef-discrete = hlevel ℕ_discrete

-- `capabilityRecord` and `sessionRecord` have the same fields.
pub record CredentialRecord : Type 0 where
  pub exposure : ExposureRef
  pub expires_at : ℕ

pub record ExposureState : Type 0 where
  pub exposure : Exposure
  pub active : ℕ
  -- when the pending call of `AfterFunc` is due
  pub timer : Option ℕ
  pub conns : List ℕ

pub record Registry : Type 0 where
  -- the bytes that the random reader has left
  pub random : Bytes
  pub session_ttl : ℕ
  pub bootstrap_ttl : ℕ
  -- `none` where the sink is nil
  pub events : Option (List Event)
  pub closed : Bool
  -- a uint64
  pub next_gen : ℕ
  pub exposures : Dict Bytes ExposureState
  pub hosts : Dict Bytes ExposureRef
  pub capabilities : Dict Bytes CredentialRecord
  pub sessions : Dict Bytes CredentialRecord
  pub closed_conns : List ℕ

instance unfoldable pub ref_eq : Eq ExposureRef
unfolding ExposureRef-discrete
ref_eq = record { dec = ExposureRef-discrete }

-- The zero value, which a lookup of a missing key returns.
abbrev pub zero_ref : ExposureRef
zero_ref = record { id = []; generation = 0 }

abbrev pub ref_for : Exposure → ExposureRef
ref_for exposure = record { id = exposure.id; generation = exposure.generation }

-- A nil state matches nothing.
abbrev pub state_matches : Option ExposureState → ExposureRef → Bool
state_matches none ref = false
state_matches (some state) ref =
    state.exposure.id == ref.id && eqb state.exposure.generation ref.generation

-- `stateMatches(state, ref) && now.Before(state.exposure.ExpiresAt)`
abbrev pub state_live : Option ExposureState → ExposureRef → ℕ → Bool
state_live none ref now = false
state_live (some state) ref now =
    state_matches (some state) ref && ltb now state.exposure.expires_at

unfoldable pub emit : Event → Registry → Registry
emit event r = record r {
  events = elim r.events [ none ↦ none | some events ↦ some (events ++ (event ∷ [])) ];
}

unfoldable pub or_zero : Option ExposureRef → ExposureRef
or_zero none = zero_ref
or_zero (some ref) = ref

drop_host : Bytes → ExposureRef → Dict Bytes ExposureRef → Dict Bytes ExposureRef
unfolding or_zero
drop_host host ref hosts = if or_zero (lookup host hosts) == ref then erase host hosts else hosts

abbrev pub held_by : ExposureRef → CredentialRecord → Bool
held_by ref credential = credential.exposure == ref

revoke_state : ExposureRef → String → ExposureState → Registry → Registry
unfolding drop_host
revoke_state ref outcome state r =
    emit (record { exposure_id = ref.id; kind = "revoke"; outcome = outcome })
      (record r {
        exposures = erase ref.id r.exposures;
        hosts = drop_host state.exposure.host ref r.hosts;
        capabilities = erase_where (held_by ref) r.capabilities;
        sessions = erase_where (held_by ref) r.sessions;
        closed_conns = r.closed_conns ++ state.conns;
      })

revoke_found : ExposureRef → String → Option ExposureState → Registry → Registry
unfolding revoke_state
revoke_found ref outcome none r = r
revoke_found ref outcome (some state) r =
    if state_matches (some state) ref then revoke_state ref outcome state r else r

-- One section: the connections are closed and the event is sent after the unlock.
unfoldable pub revoke_ref : ExposureRef → String → Registry → Registry
unfolding revoke_found
revoke_ref ref outcome r = revoke_found ref outcome (lookup ref.id r.exposures) r

-- `Revoke`
unfoldable pub revoke : Bytes → Registry → Registry
unfolding revoke_ref
revoke exposure_id r = elim (lookup exposure_id r.exposures) [
  | none ↦ r
  | some state ↦ revoke_ref (ref_for state.exposure) "revoked" r
]

unfoldable pub revoke_all : List ExposureRef → Registry → Registry
unfolding revoke_ref
revoke_all [] r = r
revoke_all (ref ∷ refs) r = revoke_all refs (revoke_ref ref "shutdown" r)

-- `Close`: the references are collected under the lock that sets `closed`.
unfoldable pub close : Registry → Registry
unfolding revoke_all
close r =
    revoke_all (map (λ (_, state). ref_for state.exposure) r.exposures) (record r { closed = true })

-- `validCredentialShape`
unfoldable pub valid_credential_shape : Bytes → Bool
unfolding Base64.decode
valid_credential_shape value =
    if not (eqb (length value) 43)
    then false
    else elim (Base64.decode value) [ none ↦ false | some _ ↦ true ]

session_default : ℕ
session_default = 900_000_000_000

bootstrap_default : ℕ
bootstrap_default = 60_000_000_000

positive_or : ℕ → ℤ → ℕ
positive_or default (pos ℕ.zero) = default
positive_or default (pos (ℕ.suc n)) = ℕ.suc n
positive_or default (ℤ.negsuc n) = default

-- `NewRegistry` with the option `WithBootstrapTTL`. Durations that are not positive are ignored.
unfoldable pub new_registry : Bytes → ℤ → ℤ → Option (List Event) → Registry
unfolding session_default bootstrap_default positive_or
new_registry random session_ttl bootstrap_ttl events = record {
  random = random;
  session_ttl = positive_or session_default session_ttl;
  bootstrap_ttl = positive_or bootstrap_default bootstrap_ttl;
  events = events;
  closed = false;
  next_gen = 0;
  exposures = [];
  hosts = [];
  capabilities = [];
  sessions = [];
  closed_conns = [];
}
