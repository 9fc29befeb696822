-- ===== src/ControlPlane/Examples/Listing.antt =====
-- apps/control-plane-go/internal/backend/kubernetes: the theorems on lists, sweeps, readiness and options
-- over the small API server.
use agent_sandbox_platform.Base.{
  ◌≡◌, refl, true, [], ◌∷◌, Bytes, bytes_eq, nat_eq, none, some, inl, inr, All, Occurs,
}
use agent_sandbox_platform.Base.Dict.{Dict, lookup, insert, erase}
use agent_sandbox_platform.Base.Int.{pos}
use agent_sandbox_platform.Base.Result.{ok}
use agent_sandbox_platform.Base.Text.{bytes, trim_space}
use agent_sandbox_platform.Codec.Hexadecimal.{encode_hex}
use agent_sandbox_platform.ControlPlane.Cursors.{scope_hash, digest}
use agent_sandbox_platform.ControlPlane.Cluster.{Claim, ClaimList, annotation}
use agent_sandbox_platform.ControlPlane.Claims.{
  build_claim, record_from_claim, stop_transfers, wait_transfers, all_done, delete_claim,
}
use agent_sandbox_platform.ControlPlane.Options.{
  Options, checked_pools, validate_pools, new_metadata_identity, nonzero_or, limits_of,
  check_limits, make_backend, new_backend,
}
use agent_sandbox_platform.ControlPlane.Options.Limits.{IsServing, new_backend-IsServing}
use agent_sandbox_platform.ControlPlane.Listing.{
  ListRequest, Page, list_leases, list_from, make_page, pools_ready, warm_pool_ready, list_selector,
  page_start, managed_selector, sweep_expired, sweep, ready, unexpired,
}
use agent_sandbox_platform.ControlPlane.Listing.Pages.{IsPage, list_leases-IsPage}
use agent_sandbox_platform.ControlPlane.Listing.Readiness.{IsWarm, ready-IsWarm}
use agent_sandbox_platform.ControlPlane.Listing.Sweeping.{IsSwept, sweep_expired-IsSwept}
use agent_sandbox_platform.ControlPlane.Claims.Labels.{carries}
use agent_sandbox_platform.ControlPlane.Transfers.{
  new_transfer_manager, stop_lease, run, cancel_all, active_of,
}
use agent_sandbox_platform.ControlPlane.Examples.Server.{
  values, selected_of, server, server-IsStore, server-IsClock, alice, pool, backend, lease, world,
  node, server-IsListing,
}

abbrev list_request : ListRequest
list_request = record { pool = []; limit = pos 50; cursor = [] }

abbrev page : Page
page = record { leases = lease (bytes "lease-1") 900 ∷ []; next_cursor = none }

world-named : (c : Claim) → Occurs c (values world) → lookup c.name world ≡ some c
unfolding lookup build_claim bytes_eq
world-named c (inl e) = rw e refl
world-named c (inr (inl e)) = rw e refl
world-named c (inr (inr never)) = absurd never

list_leases-IsPage_example : IsPage server backend (λ w. w) alice list_request world page
unfolding list_leases page_start list_from list_selector carries unexpired make_page
    record_from_claim build_claim scope_hash digest encode_hex annotation lookup bytes_eq
list_leases-IsPage_example =
    list_leases-IsPage server backend (λ w. w) alice list_request node node page
      (server-IsListing world world-named) refl

ready-IsWarm_example :
    (claims : ClaimList) × (server.list_claims world [] 1 [] ≡ ok claims)
    × (server.list_sandboxes world ≡ ok tt)
    × All (λ entry. IsWarm server backend world entry.1) backend.pools
unfolding ready pools_ready warm_pool_ready
ready-IsWarm_example = ready-IsWarm server backend world refl

abbrev managed : Dict Bytes Bytes
managed = managed_selector server backend

sweep_expired-IsSwept_example :
    IsSwept server backend
      (λ w. w)
      server-IsStore
      server-IsClock
      (selected_of managed (values world))
      node
      ((sweep_expired server backend node).1)
unfolding carries sweep_expired sweep record_from_claim build_claim annotation stop_transfers
    wait_transfers delete_claim stop_lease run cancel_all active_of all_done lookup insert erase
    bytes_eq new_transfer_manager
sweep_expired-IsSwept_example =
    sweep_expired-IsSwept server backend (λ w. w) server-IsStore server-IsClock node
      (record { items = selected_of managed (values world); continue = [] }) refl refl

abbrev options : Options
options = record {
  namespace = bytes "default";
  metadata_secret = bytes "s";
  pools = (bytes "small", pool) ∷ [];
  default_ttl_seconds = pos 0;
  max_ttl_seconds = pos 0;
  has_clients = true;
  max_transfers = pos 0;
  max_transfers_per_lease = pos 3;
  transfer_timeout = pos 0;
}

new_backend-IsServing_example : IsServing backend (new_transfer_manager 8 3 120000000000)
unfolding new_backend new_metadata_identity validate_pools checked_pools make_backend check_limits
    limits_of nonzero_or new_transfer_manager insert trim_space bytes_eq nat_eq
new_backend-IsServing_example =
    new_backend-IsServing options backend (new_transfer_manager 8 3 120000000000) refl
