-- ===== src/Workload/Host.antt =====
-- apps/workload-router/internal/auth/registry.go, CanonicalHost.
use agent_sandbox_platform.Base.{
  Bool, not, ◌||◌, [], ◌∷◌, ◌++◌, String, Bytes, ◌==◌, bytes_eq, if◌then◌else◌,
}
use agent_sandbox_platform.Base.Result.{Result, ok, err}
use agent_sandbox_platform.Base.Text.{bytes, has_suffix, contains_any, trim_space}

-- What is called of other packages: `strings.ToLower` (Unicode), `netip.ParseAddr` (whether it
-- accepts), `validation.IsDNS1123Subdomain` (whether it finds no error) and SHA-256.
pub record Packages : Type 0 where
  pub to_lower : Bytes → Bytes
  pub is_ip_address : Bytes → Bool
  pub is_dns1123_subdomain : Bytes → Bool
  pub sha256 : Bytes → Bytes

-- "@,/%\\[]:\t\r\n "
abbrev pub forbidden_host_bytes : Bytes
forbidden_host_bytes = bytes "@,/%[]: " ++ (0x5c ∷ 9 ∷ 13 ∷ 10 ∷ [])

module _ (packages : Packages) where
  unfoldable pub canonical_host : Bytes → Result String Bytes
  canonical_host host =
      if host == [] || not (trim_space host == host) || contains_any host forbidden_host_bytes
      then err "invalid exposure host"
      else if has_suffix (bytes ".") host
      then err "invalid exposure host"
      else let lowered = packages.to_lower host in
        if packages.is_ip_address lowered
        then err "IP exposure hosts are forbidden"
        else if not (packages.is_dns1123_subdomain lowered)
        then err "invalid exposure host"
        else ok lowered
