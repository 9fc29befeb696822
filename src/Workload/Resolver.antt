-- ===== src/Workload/Resolver.antt =====
-- apps/workload-router/internal/resolver/resolver.go: the destinations that an exposure can have.
use agent_sandbox_platform.Base.{
  ℕ, Bool, true, false, not, ◌&&◌, ◌||◌, ◌++◌, String, Bytes, eqb, if◌then◌else◌, any,
}
use agent_sandbox_platform.Base.Result.{Result, ok, err}
use agent_sandbox_platform.Base.Text.{bytes}
use agent_sandbox_platform.Codec.Decimal.{format_decimal}

-- `port` is a uint16.
pub record HttpServiceTarget : Type 0 where
  pub service : Bytes
  pub namespace : Bytes
  pub port : ℕ

-- `Hostname`
abbrev pub hostname : HttpServiceTarget → Bytes
hostname t = t.service ++ (bytes "." ++ (t.namespace ++ bytes ".svc"))

-- `net.JoinHostPort`
unfoldable pub join_host_port : Bytes → Bytes → Bytes
join_host_port host port =
    if any (eqb b':') host
    then bytes "[" ++ (host ++ (bytes "]:" ++ port))
    else host ++ (bytes ":" ++ port)

-- `Authority`
unfoldable pub authority : HttpServiceTarget → Bytes
authority t = join_host_port (hostname t) (format_decimal t.port)

-- `MatchesAuthority`, by `strings.EqualFold`.
unfoldable pub matches_authority : (Bytes → Bytes → Bool) → HttpServiceTarget → Bytes → Bool
matches_authority equal_fold t asked =
    equal_fold asked (authority t) || (eqb t.port 80 && equal_fold asked (hostname t))

-- By whether `validation.IsDNS1123Label` finds no error.
module _ (is_dns1123_label : Bytes → Bool) where
  -- `NewHTTPServiceTarget`
  unfoldable pub new_http_service_target : Bytes → Bytes → ℕ → Result String HttpServiceTarget
  new_http_service_target service namespace port =
      if not (is_dns1123_label service)
      then err "invalid service name"
      else if not (is_dns1123_label namespace)
      then err "invalid service namespace"
      else if eqb port 0
      then err "invalid service port"
      else ok (record { service = service; namespace = namespace; port = port })

  -- `Validate`, by whether it finds no error.
  abbrev pub is_ok : Result String HttpServiceTarget → Bool
  is_ok (err message) = false
  is_ok (ok t) = true

  unfoldable pub is_valid : HttpServiceTarget → Bool
  is_valid t = is_ok (new_http_service_target t.service t.namespace t.port)
