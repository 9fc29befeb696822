-- ===== src/ControlPlane/Listing/Pages.antt =====
-- apps/control-plane-go/internal/backend/kubernetes/backend.go: what is on a page of `List`.
use agent_sandbox_platform.Base.{
  true, false, none, some, ap, ◌∙◌, List, [], Bytes, ◌==◌, bytes_eq, ◌≡◌, inl, inr, refl, sym,
  subst, arith, Occurs, Bool-cases,
}
use agent_sandbox_platform.Base.Int.{magnitude, ℤ, pos}
use agent_sandbox_platform.Base.Result.{ok, Result-cases}
use agent_sandbox_platform.ControlPlane.Lease.{Scope, Record}
use agent_sandbox_platform.ControlPlane.Cluster.{Claim, ClaimList, Environment, Node}
use agent_sandbox_platform.Base.Dict.{Dict, lookup}
use agent_sandbox_platform.Base.Text.{bytes}
use agent_sandbox_platform.ControlPlane.Cursors.{
  ListCursorPayload, scope_hash, pool_hash, decode_cursor,
}
use agent_sandbox_platform.ControlPlane.Claims.{
  Backend, managed_label, scope_label, pool_hash_label,
}
use agent_sandbox_platform.ControlPlane.Claims.Labels.{carries, has_value-some, IsListing}
use agent_sandbox_platform.ControlPlane.Listing.{
  ListRequest, Page, unexpired, page_start, make_page, list_from, list_leases, list_selector,
}
use agent_sandbox_platform.ControlPlane.Listing.Unexpired.{
  IsOpen, IsInOrder, unexpired-IsInOrder, IsExact-in_order,
}

module _ {World : Type 0} (env : Environment World) (b : Backend) where
  leases-make_page :
      (scope : Scope) (request : ListRequest) (as_of : ℤ) (continue : Bytes) (leases : List Record)
      (node : Node World)
      → ((make_page env b scope request as_of continue leases node).0.leases) ≡ leases
  unfolding make_page
  leases-make_page scope request as_of continue leases node = elim (Bool-cases (continue == [])) [
    | inl e ↦ rw (make_page, e) refl
    | inr e ↦ rw (make_page, e) refl
  ]

  -- A page without a cursor for the next is the last.
  make_page-last :
      (scope : Scope) (request : ListRequest) (as_of : ℤ) (continue : Bytes) (leases : List Record)
      (node : Node World)
      → ((make_page env b scope request as_of continue leases node).0.next_cursor) ≡ none
      → continue ≡ []
  unfolding make_page
  make_page-last scope request as_of continue leases node h = ground (arith, h)

  -- The Lease of a claim belongs on a page of a scope, for a pool or for all, at a time.
  pub record IsShown (scope : Scope) (pool : Bytes) (as_of : ℤ) (claim : Claim) (lease : Record)
      : Type 0 where
    pub current : IsOpen env b as_of claim lease
    pub managed : lookup managed_label claim.labels ≡ some (bytes "true")
    pub scoped : lookup scope_label claim.labels ≡ some (scope_hash env.packages b.secret scope)
    pub pooled :
        (pool == []) ≡ false
        → lookup pool_hash_label claim.labels ≡ some (pool_hash env.packages b.secret pool)

  selected-IsShown :
      (scope : Scope) (pool : Bytes) (as_of : ℤ) (claim : Claim) (lease : Record)
      → carries (list_selector env b scope pool) claim ≡ true
      → IsOpen env b as_of claim lease
      → IsShown scope pool as_of claim lease
  unfolding carries list_selector
  selected-IsShown scope pool as_of claim lease h o =
      let scope_value = scope_hash env.packages b.secret scope in
      let pool_value = pool_hash env.packages b.secret pool in
      let found = lookup scope_label claim.labels in
      let found_pool = lookup pool_hash_label claim.labels in
      let found_managed = lookup managed_label claim.labels in
      elim (Bool-cases (pool == [])) [
        | inl e ↦ record {
          current = o;
          managed = has_value-some (bytes "true") found_managed (ground (arith, h, e));
          scoped = has_value-some scope_value found (ground (arith, h, e));
          pooled = λ n. ground (arith, n, e);
        }
        | inr e ↦ record {
          current = o;
          managed = has_value-some (bytes "true") found_managed (ground (arith, h, e));
          scoped = has_value-some scope_value found (ground (arith, h, e));
          pooled = λ n. has_value-some pool_value found_pool (ground (arith, h, e));
        }
      ]

  IsShown-selected :
      (scope : Scope) (pool : Bytes) (as_of : ℤ) (claim : Claim) (lease : Record)
      → IsShown scope pool as_of claim lease
      → carries (list_selector env b scope pool) claim ≡ true
  unfolding carries list_selector
  IsShown-selected scope pool as_of claim lease s = elim (Bool-cases (pool == [])) [
    | inl e ↦ ground (arith, e, s.managed, s.scoped)
    | inr e ↦ ground (arith, e, s.managed, s.scoped, s.pooled e)
  ]

  -- What is known of a page of `List`, of the list that the API server gave for it, and of the time that it
  -- is made for.
  pub record IsPage (claims : World → Dict Bytes Claim) (scope : Scope) (request : ListRequest)
      (w : World) (page : Page) : Type 0 where
    pub as_of : ℤ
    pub continuation : Bytes
    pub listed : ClaimList
    pub asked :
        env.list_claims w
          (list_selector env b scope request.pool)
          (magnitude request.limit)
          continuation
        ≡ ok listed
    pub in_order : IsInOrder env b as_of listed.items page.leases
    pub sound :
        (lease : Record)
        → Occurs lease page.leases
        → (claim : Claim) × Occurs claim listed.items × IsShown scope request.pool as_of claim lease
    pub first : request.cursor ≡ [] → (as_of ≡ pos (env.now w)) × (continuation ≡ [])
    pub resumed :
        (payload : ListCursorPayload)
        → (request.cursor == []) ≡ false
        → decode_cursor env.packages b.secret request.cursor scope request.pool request.limit
          ≡ ok payload
        → (as_of ≡ payload.as_of_unix_nano) × (continuation ≡ payload.continue)
    pub all_shown :
        request.cursor ≡ []
        → page.next_cursor ≡ none
        → (claim : Claim) (lease : Record) → lookup claim.name (claims w) ≡ some claim
        → IsShown scope request.pool as_of claim lease
        → Occurs lease page.leases

  page_start-first :
      (scope : Scope) (request : ListRequest) (w : World) (as_of : ℤ) (continuation : Bytes)
      → page_start env b scope request w ≡ ok (as_of, continuation)
      → request.cursor ≡ []
      → (as_of ≡ pos (env.now w)) × (continuation ≡ [])
  unfolding page_start
  page_start-first scope request w as_of continuation h e = ground (arith, h, e)

  page_start-resumed :
      (scope : Scope) (request : ListRequest) (w : World) (as_of : ℤ) (continuation : Bytes)
      (payload : ListCursorPayload)
      → page_start env b scope request w ≡ ok (as_of, continuation)
      → (request.cursor == []) ≡ false
      → decode_cursor env.packages b.secret request.cursor scope request.pool request.limit
        ≡ ok payload
      → (as_of ≡ payload.as_of_unix_nano) × (continuation ≡ payload.continue)
  unfolding page_start
  page_start-resumed scope request w as_of continuation payload h e d = ground (arith, h, e, d)

  -- What a page is once its list is there, and its records are those of the list in order.
  listed-IsPage :
      (claims : World → Dict Bytes Claim) (scope : Scope) (request : ListRequest) (w : World)
      (as_of : ℤ) (continuation : Bytes) (listed : ClaimList) (page : Page)
      → IsListing env claims w
      → page_start env b scope request w ≡ ok (as_of, continuation)
      → env.list_claims w
          (list_selector env b scope request.pool)
          (magnitude request.limit)
          continuation
        ≡ ok listed
      → IsInOrder env b as_of listed.items page.leases
      → (page.next_cursor ≡ none → listed.continue ≡ [])
      → IsPage claims scope request w page
  listed-IsPage claims scope request w as_of continuation listed page law start p ordered last =
      let selector = list_selector env b scope request.pool in
      let limit = magnitude request.limit in
      let exact = IsExact-in_order env b as_of listed.items page.leases ordered in
      record {
        as_of = as_of;
        continuation = continuation;
        listed = listed;
        asked = p;
        in_order = ordered;
        sound = λ lease m.
            let (claim, at, o) = exact.sound lease m in
            let labelled = law.selected selector limit continuation listed p claim at in
            (claim, at, selected-IsShown scope request.pool as_of claim lease labelled o);
        first = page_start-first scope request w as_of continuation start;
        resumed = λ payload. page_start-resumed scope request w as_of continuation payload start;
        all_shown = λ e end claim lease there s.
            let begins = (page_start-first scope request w as_of continuation start e).1 in
            let from_start : env.list_claims w selector limit [] ≡ ok listed =
              ap (env.list_claims w selector limit) (sym begins) ∙ p in
            exact.complete claim lease
              (law.whole selector limit listed from_start (last end) claim there
                (IsShown-selected scope request.pool as_of claim lease s))
              s.current;
      }

  list_from-IsPage :
      (claims : World → Dict Bytes Claim) (scope : Scope) (request : ListRequest) (as_of : ℤ)
      (continuation : Bytes) (node after : Node World) (page : Page)
      → IsListing env claims node.world
      → page_start env b scope request node.world ≡ ok (as_of, continuation)
      → list_from env b scope request (as_of, continuation) node ≡ (ok page, after)
      → IsPage claims scope request node.world page
  unfolding list_from
  list_from-IsPage claims scope request as_of continuation node after page law start h =
      let selector = list_selector env b scope request.pool in
      let limit = magnitude request.limit in
      elim (Result-cases (env.list_claims node.world selector limit continuation)) [
        | inl (e, p) ↦ absurd (ground (arith, h, p))
        | inr (listed, p) ↦ elim (Result-cases (unexpired env b as_of listed.items)) [
          | inl (e, q) ↦ absurd (ground (arith, h, p, q))
          | inr (leases, q) ↦
              let made = make_page env b scope request as_of listed.continue leases node in
              let given : made.0 ≡ page = ground (arith, h, p, q) in
              let same : leases ≡ page.leases =
                sym (leases-make_page scope request as_of listed.continue leases node)
                ∙ ap (λ (x : Page). x.leases) given in
              listed-IsPage claims scope request node.world as_of continuation listed page law start
                p
                (subst (IsInOrder env b as_of listed.items) same
                  (unexpired-IsInOrder env b as_of listed.items leases q))
                (λ none_left.
                  make_page-last scope request as_of listed.continue leases node
                    (ap (λ (x : Page). x.next_cursor) given ∙ none_left))
        ]
      ]

  -- A page of `List` holds, in the order of the API server's list and each once, the Leases of exactly the
  -- listed claims that are not being deleted and expire after the page's time; each carries the labels
  -- of the scope and, if one was asked for, of the pool. The time is now for a first page, and else the
  -- one in the cursor, and the list goes on from there. A first page without a next cursor holds the
  -- Lease of every claim of the scope and the pool that is there, not being deleted and not expired. The
  -- API server lists claims by their labels.
  pub list_leases-IsPage :
      (claims : World → Dict Bytes Claim) (scope : Scope) (request : ListRequest)
      (node after : Node World) (page : Page)
      → IsListing env claims node.world
      → list_leases env b scope request node ≡ (ok page, after)
      → IsPage claims scope request node.world page
  unfolding list_leases
  list_leases-IsPage claims scope request node after page law h =
      elim (Result-cases (page_start env b scope request node.world)) [
        | inl (e, p) ↦ absurd (ground (arith, h, p))
        | inr ((as_of, continuation), p) ↦
            list_from-IsPage claims scope request as_of continuation node after page law p
              (ground (arith, h, p))
      ]
