-- ===== src/Workload/Registry/Examples.antt =====
-- The registry on concrete calls, and its theorems at inputs that meet their hypotheses.
use agent_sandbox_platform.Base.{
  ℕ, ◌≡◌, refl, true, false, List, [], ◌∷◌, ◌++◌, none, Bytes, arith, bytes_eq,
}
use agent_sandbox_platform.Base.Int.{pos}
use agent_sandbox_platform.Base.Dict.{lookup, insert, erase}
use agent_sandbox_platform.Base.Result.{ok, err}
use agent_sandbox_platform.Base.Text.{bytes, trim_space, has_suffix, contains_any}
use agent_sandbox_platform.Codec.Base64
use agent_sandbox_platform.Workload.Host.{Packages}
use agent_sandbox_platform.Workload.Registry.{
  unauthorized, Registration, Exposure, Registry, ref_for, new_registry, revoke_ref,
  valid_credential_shape, ref_eq,
}
use agent_sandbox_platform.Workload.Registry.Sections.{
  register_section, lookup_section, lookup_state, consume_section,
}
use agent_sandbox_platform.Workload.Registry.Methods.{
  register, lookup_host, issue_session, exchange, authenticate,
}
use agent_sandbox_platform.Workload.Registry.Invariant.{IsValid}
use agent_sandbox_platform.Workload.Registry.Sessions.{exchange-authenticate}
use agent_sandbox_platform.Workload.Registry.Interleaving.{
  World, Section, registers, looks_up, revokes, consumes, stores, acquires, run,
}
use agent_sandbox_platform.Workload.Registry.Interleaving.Soundness.{
  IsSound, run-new_registry-IsSound,
}
use agent_sandbox_platform.Workload.Registry.Interleaving.Revocation.{
  IsDenied, revoked-IsDenied, consume_once,
}

-- Packages that accept every host, and a digest that is the text itself.
abbrev packages : Packages
packages = record {
  to_lower = λ s. s;
  is_ip_address = λ s. false;
  is_dns1123_subdomain = λ s. true;
  sha256 = λ s. s;
}

replicate : ℕ → ℕ → Bytes
replicate ℕ.zero b = []
replicate (ℕ.suc n) b = b ∷ replicate n b

abbrev host : Bytes
host = bytes "app.example"

abbrev registration : Registration
registration = record {
  exposure_id = bytes "e1";
  host = host;
  expires_at = 500;
  allow_web_socket = false;
  max_connections = pos 2;
}

abbrev fresh : Registry
unfolding new_registry replicate
fresh = new_registry (replicate 32 65 ++ replicate 32 66) (pos 100) (pos 50) none

-- After one registration, at time 10.
abbrev exposed : Registry
unfolding register
exposed = (register packages 10 10 registration fresh).1

abbrev token : Bytes
token = bytes "QUFBQUFBQUFBQUFBQUFBQUFBQUFBQUFBQUFBQUFBQUE"

abbrev session : Bytes
session = bytes "QkJCQkJCQkJCQkJCQkJCQkJCQkJCQkJCQkJCQkJCQkI"

register_runs : (register packages 10 10 registration fresh).0 ≡ ok token
unfolding register Base64.encode trim_space contains_any has_suffix fresh bytes_eq lookup insert
register_runs = refl

exchange_runs : (exchange packages 20 21 22 host token exposed).0 ≡ ok (session, 122)
unfolding exposed Base64.encode Base64.decode trim_space contains_any has_suffix fresh bytes_eq
    ref_eq lookup insert erase exchange lookup_host lookup_state consume_section issue_session
    valid_credential_shape
exchange_runs = refl

-- The capability is spent.
exchange_replayed :
    (exchange packages 30 31 32 host token (exchange packages 20 21 22 host token exposed).1).0
    ≡ err unauthorized
unfolding exposed Base64.encode Base64.decode trim_space contains_any has_suffix fresh bytes_eq
    ref_eq lookup insert erase exchange lookup_host lookup_state consume_section issue_session
    valid_credential_shape
exchange_replayed = refl

exchange-authenticate_example :
    (e : Exposure) × ((lookup_host packages 20 host exposed).0 ≡ ok e)
    × (authenticate packages 121 121 host session (exchange packages 20 21 22 host token exposed).1
        ≡ (ok e, (exchange packages 20 21 22 host token exposed).1))
unfolding fresh exposed bytes_eq trim_space contains_any has_suffix lookup
exchange-authenticate_example =
    exchange-authenticate packages 20 21 22 121 121 host token exposed session 122 (omega arith)
      exchange_runs (omega arith) (omega arith)

abbrev empty_world : World
unfolding fresh
empty_world = record { registry = fresh; known = [] }

abbrev exposure : Exposure
exposure = record {
  id = bytes "e1";
  host = host;
  expires_at = 500;
  allow_web_socket = false;
  max_connections = pos 2;
  generation = 1;
}

-- Two callers find the exposure; one exchanges and takes a slot, and it expires between.
abbrev sections : List Section
sections =
    registers 10 registration host token
    ∷ looks_up 20 host
    ∷ looks_up 20 host
    ∷ consumes 21 0 token
    ∷ stores 22 23 0 session
    ∷ acquires 24 1
    ∷ revokes (ref_for exposure) "expired"
    ∷ acquires 25 0
    ∷ []

run-new_registry-IsSound_example : IsSound (
    run sections
      (record { registry = new_registry (replicate 32 65) (pos 100) (pos 50) none; known = [] }))
run-new_registry-IsSound_example =
    run-new_registry-IsSound (replicate 32 65) (pos 100) (pos 50) none sections (omega arith)

-- A registered exposure, and a caller that has found it.
abbrev found : List Section
found = registers 10 registration host token ∷ looks_up 20 host ∷ []

abbrev found_world : World
unfolding fresh
found_world = run found empty_world

found_world-IsValid : IsValid found_world.registry
unfolding fresh
found_world-IsValid =
    (run-new_registry-IsSound (replicate 32 65 ++ replicate 32 66) (pos 100) (pos 50) none found
      (omega arith)).valid

found_runs : found_world.known ≡ exposure ∷ []
unfolding fresh run lookup insert lookup_section register_section bytes_eq
found_runs = refl

-- The ID is registered again, and the old exposure stays refused.
revoked-IsDenied_example :
    IsDenied exposure
      (run (registers 30 registration host token ∷ []) (record found_world {
        registry = revoke_ref (ref_for exposure) "revoked" found_world.registry;
      })).registry
unfolding fresh run lookup insert register_section bytes_eq
revoked-IsDenied_example =
    revoked-IsDenied exposure "revoked" (registers 30 registration host token ∷ []) found_world
      (omega arith) (omega arith) found_world-IsValid

consume_once_example :
    (consume_section 40
      (ref_for exposure)
      token
      (run (looks_up 30 host ∷ []) (record found_world {
        registry = (consume_section 30 (ref_for exposure) token found_world.registry).1;
      })).registry).0
    ≡ false
unfolding fresh run lookup insert register_section consume_section ref_eq bytes_eq
consume_once_example =
    consume_once 30 40 (ref_for exposure) (ref_for exposure) token (looks_up 30 host ∷ [])
      found_world refl refl
