-- ===== src/ControlPlane/Examples/Server.antt =====
-- apps/control-plane-go/internal/backend/kubernetes: a small API server that keeps its claims in a
-- dictionary, at one instant, a backend and two Leases.
use agent_sandbox_platform.Base.{
  ℕ, ◌≡◌, refl, true, List, [], ◌∷◌, ◌++◌, Bytes, ◌==◌, bytes_eq, nat_eq, Option, none, some, arith,
  if◌then◌else◌, inl, inr, Occurs, Bool-cases, ap, sym, subst, ◌∙◌,
}
use mathlib.Core.List.{reverse}
use agent_sandbox_platform.Base.Dict.{Dict, lookup, insert, erase, lookup-insert, lookup-erase}
use agent_sandbox_platform.Base.Int.{pos}
use agent_sandbox_platform.Base.Result.{Result, ok}
use agent_sandbox_platform.Base.Text.{bytes}
use agent_sandbox_platform.ControlPlane.Lease.{Scope, Record, active}
use agent_sandbox_platform.ControlPlane.Cursors.{Packages}
use agent_sandbox_platform.ControlPlane.Cluster.{
  Claim, ClaimList, ApiError, exited, Environment, Node,
}
use agent_sandbox_platform.ControlPlane.Claims.{Backend, Pool, build_claim}
use agent_sandbox_platform.ControlPlane.Claims.Store.{
  living, read_of, created_of, kept_or_created, removed_of, IsStore,
}
use agent_sandbox_platform.ControlPlane.Listing.Sweeping.{IsClock}
use agent_sandbox_platform.ControlPlane.Claims.Labels.{carries, IsListing}
use agent_sandbox_platform.ControlPlane.Transfers.{new_transfer_manager}

abbrev pub ClaimStore : Type 0
ClaimStore = Dict Bytes Claim

abbrev time_of : Bytes → Option ℕ
time_of [] = none
time_of (t ∷ []) = some t
time_of (t ∷ u ∷ rest) = none

abbrev pub values : ClaimStore → List Claim
values [] = []
values ((name, claim) ∷ rest) = claim ∷ values rest

abbrev pub selected_of : Dict Bytes Bytes → List Claim → List Claim
selected_of selector [] = []
selected_of selector (c ∷ cs) =
    if carries selector c then c ∷ selected_of selector cs else selected_of selector cs

abbrev the_list : Dict Bytes Bytes → List Claim → Result ApiError ClaimList
the_list selector cs = ok (record { items = selected_of selector cs; continue = [] })

-- A new claim has its sandbox at once.
abbrev created : Option Claim → Claim → ClaimStore → ClaimStore
created none c w = insert c.name (record c { sandbox_name = bytes "box" }) w
created (some old) c w = w

abbrev pub packages : Packages
packages = record {
  hmac_sha256 = λ key message. reverse message;
  marshal_strings = λ parts. joined parts;
  marshal_payload = λ payload. [];
  unmarshal_payload = λ text. none;
  nonce_size = 1;
  overhead = 1;
  seal = λ key nonce text aad. text;
  unseal = λ key nonce text aad. none;
}
  where
    joined : List Bytes → Bytes
    joined [] = []
    joined (part ∷ parts) = 0 ∷ (part ++ joined parts)

abbrev pub server : Environment ClaimStore
server = record {
  packages = packages;
  format_time = λ t. t ∷ [];
  parse_time = time_of;
  now = λ w. 500;
  random = λ w. (1 ∷ 2 ∷ [], w);
  nonce = λ w. (1 ∷ [], w);
  get_claim = λ w id. read_of (lookup id w);
  list_claims = λ w selector limit continuation. the_list selector (values w);
  create_claim = λ c w. (created_of (lookup c.name w), created (lookup c.name w) c w);
  remove_claim = λ id w. (removed_of (lookup id w), erase id w);
  list_sandboxes = λ w. ok tt;
  get_sandbox = λ w name. ok (bytes "pod");
  get_pod = λ w name.
      ok (record { runtime_class_name = some (bytes "gvisor"); containers = bytes "main" ∷ [] });
  get_warm_pool = λ w name. ok (record { ready_replicas = some (pos 2); replicas = some (pos 2) });
  polls = λ w. 1;
  poll = λ w. w;
  waiting = λ w. ([], w);
  run = λ target command input timeout w.
      (record { stdout_chunks = []; stderr_chunks = []; end_of_run = exited 0 }, w);
}

created_keeps :
    (found : Option Claim) (c : Claim) (w : ClaimStore) (j : Bytes)
    → lookup c.name w ≡ found
    → living (lookup j (created found c w))
      ≡ (if j == c.name then kept_or_created (lookup j w) c else living (lookup j w))
created_keeps none c w j h =
    rw (lookup-insert j c.name (record c { sandbox_name = bytes "box" }) w) (ground (arith, h))
created_keeps (some old) c w j h = ground (arith, h)

pub server-IsStore : IsStore server (λ w. w)
server-IsStore = record {
  get = λ w id. refl;
  create = λ c w. refl;
  create_keeps = λ c w j. created_keeps (lookup c.name w) c w j refl;
  remove = λ id w. refl;
  remove_keeps = λ id w j. rw (lookup-erase j id w) (ground arith);
  random_keeps = λ w j. refl;
  poll_keeps = λ w j. refl;
  waiting_keeps = λ w j. refl;
}

-- The clock stands still.
pub server-IsClock : IsClock server
server-IsClock = record { waiting_later = λ w. omega arith; remove_later = λ id w. omega arith }

abbrev pub alice : Scope
alice = record { consumer_id = bytes "shop"; subject_id = bytes "alice" }

abbrev pub mallory : Scope
mallory = record { consumer_id = bytes "shop"; subject_id = bytes "mallory" }

abbrev pub pool : Pool
pool = record {
  warm_pool_name = bytes "warm";
  runtime_class_name = bytes "gvisor";
  container_name = [];
}

-- A pool whose sandboxes never have the right runtime class.
abbrev pub strange_pool : Pool
strange_pool = record pool { runtime_class_name = bytes "kata" }

abbrev pub backend : Backend
backend = record {
  secret = bytes "s";
  pools = (bytes "small", pool) ∷ [];
  default_ttl = pos 900;
  max_ttl = pos 3600;
}

abbrev pub lease : Bytes → ℕ → Record
lease id expires_at = record {
  id = id;
  pool = bytes "small";
  status = active;
  created_at = 100;
  expires_at = expires_at;
  last_used_at = 100;
}

abbrev pub claim_of : Record → Claim
claim_of record_of = build_claim server backend record_of alice (bytes "key") pool

-- One Lease that runs until 900, and one that has expired at 400.
abbrev pub world : ClaimStore
world =
    (bytes "lease-1", claim_of (lease (bytes "lease-1") 900))
    ∷ (bytes "lease-2", claim_of (lease (bytes "lease-2") 400))
    ∷ []

abbrev pub node : Node ClaimStore
node = record { world = world; transfers = new_transfer_manager 4 2 100 }

selected_of-carries :
    (selector : Dict Bytes Bytes) (c : Claim) (cs : List Claim)
    → Occurs c (selected_of selector cs)
    → (carries selector c ≡ true) × Occurs c cs
selected_of-carries selector c [] m = absurd m
selected_of-carries selector c (d ∷ cs) m = elim (Bool-cases (carries selector d)) [
  | inl e ↦ elim (rw e at m) [
    | inl same ↦ (ap (carries selector) same ∙ e, inl same)
    | inr there ↦ let (q, at) = selected_of-carries selector c cs there in (q, inr at)
  ]
  | inr e ↦ let (q, at) = selected_of-carries selector c cs (rw e at m) in (q, inr at)
]

selected_of-Occurs :
    (selector : Dict Bytes Bytes) (c : Claim) (cs : List Claim)
    → carries selector c ≡ true
    → Occurs c cs
    → Occurs c (selected_of selector cs)
selected_of-Occurs selector c [] q m = absurd m
selected_of-Occurs selector c (d ∷ cs) q (inl same) =
    let e : carries selector d ≡ true = ap (carries selector) (sym same) ∙ q in rw e (inl same)
selected_of-Occurs selector c (d ∷ cs) q (inr there) =
    let rest = selected_of-Occurs selector c cs q there in
    elim (Bool-cases (carries selector d)) [ inl e ↦ rw e (inr rest) | inr e ↦ rw e rest ]

pub Occurs-values :
    (name : Bytes) (c : Claim) (w : ClaimStore) → lookup name w ≡ some c → Occurs c (values w)
unfolding lookup
Occurs-values name c [] h = absurd (ground (arith, h))
Occurs-values name c ((j, d) ∷ w) h = elim (Bool-cases (name == j)) [
  | inl e ↦ inl (ground (arith, h, e))
  | inr e ↦ inr (Occurs-values name c w (ground (arith, h, e)))
]

pub server-IsListing :
    (w : ClaimStore)
    → ((c : Claim) → Occurs c (values w) → lookup c.name w ≡ some c)
    → IsListing server (λ w. w) w
server-IsListing w named = record {
  selected = λ selector limit continuation listed h c m.
      (selected_of-carries selector c (values w)
        (subst (Occurs c) (items_of selector listed h) m)).0;
  stored = λ selector limit listed h c m. named c (
      (selected_of-carries selector c (values w)
        (subst (Occurs c) (items_of selector listed h) m)).1);
  whole = λ selector limit listed h last c there q.
      subst (Occurs c) (sym (items_of selector listed h))
        (selected_of-Occurs selector c (values w) q (Occurs-values c.name c w there));
  unlimited = λ selector listed h. ground (arith, h);
}
  where
    items_of :
        (selector : Dict Bytes Bytes) (listed : ClaimList)
        → (the_list selector (values w) ≡ ok listed)
        → listed.items ≡ selected_of selector (values w)
    items_of selector listed h = ground (arith, h)
