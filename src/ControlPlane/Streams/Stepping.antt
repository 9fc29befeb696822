-- ===== src/ControlPlane/Streams/Stepping.antt =====
-- apps/control-plane-go/internal/backend/kubernetes: what the requests on Leases do to the transfer
-- manager: nothing but calls of its methods.
use agent_sandbox_platform.Base.{List, [], ◌∷◌, ◌++◌, Bytes, bytes_eq, ◌≡◌, refl, sym, ap, ◌∙◌}
use agent_sandbox_platform.Base.Result.{Result, ok, err}
use agent_sandbox_platform.ControlPlane.Lease.{Scope, Record, Error}
use agent_sandbox_platform.ControlPlane.Cluster.{
  Claim, Environment, Node, Operation, after_call, ◌>>=◌, lift,
}
use agent_sandbox_platform.ControlPlane.Claims.{
  Backend, require_claim, record_from_claim, delete_claim, wait_transfers, stop_transfers,
  stop_lease_and_delete,
}
use agent_sandbox_platform.ControlPlane.Requests.{abandon}
use agent_sandbox_platform.ControlPlane.Transfers.{
  Action, stops, TransferManager, stop_lease, perform, run,
}

run-append : (xs ys : List Action) (m : TransferManager) → run (xs ++ ys) m ≡ run ys (run xs m)
unfolding run
run-append [] ys m = refl
run-append (x ∷ xs) ys m = run-append xs ys (perform x m)

-- One state of the transfer manager follows from another by calls of its methods.
pub record Follows (m after : TransferManager) : Type 0 where
  pub actions : List Action
  pub reached : after ≡ run actions m

pub Follows-refl : (m : TransferManager) → Follows m m
Follows-refl m = record { actions = []; reached = unfold run in refl }

pub Follows-trans :
    (m next after : TransferManager) → Follows m next → Follows next after → Follows m after
Follows-trans m next after f g = record {
  actions = f.actions ++ g.actions;
  reached = g.reached ∙ ap (run g.actions) f.reached ∙ sym (run-append f.actions g.actions m);
}

pub Follows-one : (action : Action) (m : TransferManager) → Follows m (perform action m)
Follows-one action m = record { actions = action ∷ []; reached = unfold run in refl }

pub Follows-run : (actions : List Action) (m : TransferManager) → Follows m (run actions m)
Follows-run actions m = record { actions = actions; reached = refl }

module _ {World : Type 0} where
  -- An operation only calls the transfer manager's methods.
  abbrev pub IsStepping : {A : Type 0} → Operation World A → Type 0
  IsStepping op = (node : Node World) → Follows node.transfers (op node).1.transfers

  pub IsStepping-after_call :
      {A B : Type 0} (r : Result Error A × Node World)
      (next : A → Node World → Result Error B × Node World) (m : TransferManager)
      → Follows m (r.1.transfers)
      → ((a : A) → IsStepping (next a))
      → Follows m (after_call r next).1.transfers
  IsStepping-after_call (err e, s) next m f g = f
  IsStepping-after_call (ok a, s) next m f g =
      Follows-trans m s.transfers (next a s).1.transfers f (g a s)

  pub IsStepping-bind :
      {A B : Type 0} (m : Operation World A) (f : A → Operation World B)
      → IsStepping m
      → ((a : A) → IsStepping (f a))
      → IsStepping (m >>= f)
  IsStepping-bind m f h g node = IsStepping-after_call (m node) f node.transfers (h node) g

  pub IsStepping-lift :
      {A : Type 0} (result : Result Error A) → IsStepping (lift {World = World} result)
  IsStepping-lift result node = Follows-refl node.transfers

  module _ (env : Environment World) (b : Backend) where
    pub IsStepping-require_claim :
        (scope : Scope) (id : Bytes) → IsStepping (require_claim env b scope id)
    unfolding require_claim
    IsStepping-require_claim scope id node = Follows-refl node.transfers

    pub IsStepping-delete_claim : (id : Bytes) → IsStepping (delete_claim env b id)
    unfolding delete_claim
    IsStepping-delete_claim id node = Follows-refl node.transfers

    pub IsStepping-stop_transfers : (id : Bytes) → IsStepping (stop_transfers env b id)
    unfolding stop_transfers wait_transfers perform
    IsStepping-stop_transfers id node =
        let stopped = (stop_lease id node.transfers).1 in
        let others = (env.waiting node.world).0 in
        Follows-trans node.transfers stopped (run others stopped)
          (unfold perform in Follows-one (stops id) node.transfers) (Follows-run others stopped)

    pub Follows-abandon :
        (id : Bytes) (node : Node World) → Follows node.transfers (abandon env b id node).transfers
    unfolding abandon stop_lease_and_delete
    Follows-abandon id node =
        IsStepping-bind (stop_transfers env b id) (λ u. delete_claim env b id)
          (IsStepping-stop_transfers id) (λ u. IsStepping-delete_claim id) node

    -- A request whose claim is read, and then its record.
    pub IsStepping-claimed :
        {B : Type 0} (scope : Scope) (id : Bytes) (f : Claim → Record → Operation World B)
        → ((claim : Claim) (lease : Record) → IsStepping (f claim lease))
        → IsStepping (
            require_claim env b scope id >>= λ claim.
            lift (record_from_claim env b claim) >>= f claim)
    IsStepping-claimed scope id f h =
        IsStepping-bind (require_claim env b scope id)
          (λ claim. lift (record_from_claim env b claim) >>= f claim)
          (IsStepping-require_claim scope id)
          (λ claim.
            IsStepping-bind (lift (record_from_claim env b claim)) (f claim)
              (IsStepping-lift (record_from_claim env b claim)) (h claim))
