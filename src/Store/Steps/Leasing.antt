-- ===== src/Store/Steps/Leasing.antt =====
-- The methods of leases, attempts and grants hold a relation that has the rules.
use selfhost_models.Prelude.{
  Bool-cases, inl, inr, subst, sym, ap, ℕ, ◌≡◌, refl, String, Bool, true, false, ◌||◌, not, Option,
  none, some, List, leb, length, arith, ◌==◌,
}
use selfhost_models.Sql.{exists}
use selfhost_models.Sql.Members.{In}
use selfhost_models.Action.{◌>>=◌}
use selfhost_models.Action.Keeps.{KeepsAt, KeepsAt-then, KeepsAt-bind-gets, KeepsAt-bind-raise_if}
use selfhost_models.Tables.{
  Db, Job, JobState, Attempt, Lease, Kind, Owner, Grant, GrantRow, Binding, Controller, Registered,
}
use selfhost_models.Store.Base.{World, Env, Method, execute, event}
use selfhost_models.Store.Budget.{window_allows}
use selfhost_models.Store.Queue.{refresh_queue}
use selfhost_models.Store.Grants.{
  execution_ack, reserve_execution_grant, make_grant, add_grant, execution_binding, mark_receipt,
  execution_receipt,
}
use selfhost_models.Store.Dispatch.{
  add_attempt, start_job, spend_generation, insert_attempt, insert_lease, launch, admit_dispatch,
  dispatch_chosen, dispatch, or_stale, attempt_state, legacy_admit, legacy_terminal, legacy_detach,
  legacy_restart,
}
use selfhost_models.Store.Steps.Rules.{Rules, on}
use selfhost_models.Store.Steps.Parts.{
  step_rules, exec-bind, quiet-bind, not_null-bind, tx-Keeps, state-bind, deployment-bind,
  choose-bind, check-bind,
}
use selfhost_models.Store.Queue.Refresh.{refresh_queue-frame}

-- the two sides of a condition that failed
split : (a b : Bool) → (a || b) ≡ false → (a ≡ false) × (b ≡ false)
split a b h = ground arith

module _ {env : Env} {R : World → World → Type 0} (p : Rules env R) where
  pub execution_ack-Keeps : (a : String) (s : World) → KeepsAt R (execution_ack env a) s
  unfolding execution_ack
  execution_ack-Keeps a s = search step_rules depth 20

  reserve_execution_grant-Keeps :
      (g : Grant) (s : World) → KeepsAt R (reserve_execution_grant env g) s
  unfolding reserve_execution_grant
  reserve_execution_grant-Keeps g s = search step_rules depth 20

  make_grant-Keeps :
      (b : Option Binding) (a : String) (o : Owner) (k : Kind) (t l : ℕ) (s : World)
      → KeepsAt R (make_grant env b a o k t l) s
  unfolding make_grant
  make_grant-Keeps none a o k t l s = search step_rules depth 20
  make_grant-Keeps (some b) a o k t l s =
      search (step_rules, KeepsAt-then, reserve_execution_grant-Keeps) depth 20

  add_grant-Keeps :
      (a : String) (o : Owner) (k : Kind) (t l : ℕ) (s : World)
      → KeepsAt R (add_grant env a o k t l) s
  unfolding add_grant execution_binding
  add_grant-Keeps a o k t l s = search (step_rules, make_grant-Keeps) depth 20

  mark_receipt-Keeps :
      (g : Option GrantRow) (a m : String) (s : World) → KeepsAt R (mark_receipt g a m) s
  unfolding mark_receipt
  mark_receipt-Keeps none a m s = search step_rules depth 20
  mark_receipt-Keeps (some g) a m s = search step_rules depth 20

  pub execution_receipt-Keeps :
      (a r : String) (e : Option String) (s : World) → KeepsAt R (execution_receipt env a r e) s
  unfolding execution_receipt
  execution_receipt-Keeps a r e s = search (step_rules, mark_receipt-Keeps) depth 20

  insert_attempt-Keeps : (a : Attempt) (s : World) → KeepsAt R (insert_attempt a) s
  unfolding insert_attempt
  insert_attempt-Keeps a s = search (step_rules, p.add_attempt_rule) depth 20

  -- A lease that is inserted while the deployment has room.
  insert_lease-Keeps :
      (l : Lease) (r : Registered) (s : World)
      → In r s.deployments
      → leb r.spec.load.capacity (length s.leases) ≡ false
      → KeepsAt R (insert_lease l) s
  unfolding insert_lease
  insert_lease-Keeps l r s h k = search (step_rules, p.add_lease_rule) depth 20

  insert_attempt-bind :
      {B : Type 0} (a : Attempt) (k : Unit {0} → Method B) (s : World)
      → KeepsAt R (k tt) (on s (add_attempt a))
      → KeepsAt R (insert_attempt a >>= k) s
  unfolding insert_attempt ◌>>=◌ execute
  insert_attempt-bind a k s r =
      elim (Bool-cases (exists (λ (x : Attempt). x.id == a.id || x.job == a.job) s.attempts)) [
        | inl e ↦ record { at = rw e (p.order.same s) }
        | inr e ↦ record {
          at = rw e (p.order.step s (on s (add_attempt a)) _ (p.add_attempt_rule s a e) r.at);
        }
      ]

  module _ (n : ℕ) (c : Controller) (r : Registered) (j : Job) (id : String) where
    launch-Keeps :
        (s : World)
        → leb env.config.max_generation_attempts s.generations ≡ false
        → window_allows 0 1 s ≡ true
        → In r s.deployments
        → leb r.spec.load.capacity (length s.leases) ≡ false
        → KeepsAt R (launch env n c r.spec j id) s
    unfolding launch spend_generation add_attempt event
    launch-Keeps s a b h k = exec-bind p spend_generation _ s (p.spend_generation_rule s a b) (
        not_null-bind p c.worker_epoch _ _ λ worker. insert_attempt-bind _ _ _ (
          KeepsAt-then p.order (insert_lease _) _ _ (insert_lease-Keeps _ r _ h k) λ u t.
            exec-bind p (start_job id j.id) _ t (p.start_job_rule t id j.id) (
              quiet-bind p _ _ _ refl (
                KeepsAt-then p.order _ _ _ (add_grant-Keeps id _ _ _ _ _)
                  λ g v. search step_rules depth 20))))

    launch-room :
        (s : World) (room : Bool)
        → leb env.config.max_generation_attempts s.generations ≡ false
        → window_allows 0 1 s ≡ room
        → not room ≡ false
        → In r s.deployments
        → leb r.spec.load.capacity (length s.leases) ≡ false
        → KeepsAt R (launch env n c r.spec j id) s
    launch-room s true a b x h k = launch-Keeps s a b h k
    launch-room s false a b x h k = absurd (ground arith)

    admit_dispatch-Keeps :
        (s : World)
        → In r s.deployments
        → leb r.spec.load.capacity (length s.leases) ≡ false
        → KeepsAt R (admit_dispatch env n c r.spec j id) s
    unfolding admit_dispatch
    admit_dispatch-Keeps s h k = search (step_rules, launch-room, p.fail_job_rule) depth 20

  dispatch_chosen-Keeps :
      (n : ℕ) (j id : String) (c : Controller) (o : Option Job) (s : World)
      → KeepsAt R (dispatch_chosen env n j id c o) s
  unfolding dispatch_chosen
  dispatch_chosen-Keeps n j id c none s = search step_rules
  dispatch_chosen-Keeps n j id c (some x) s = search (step_rules, admit_dispatch-Keeps) depth 20

  pub dispatch-Keeps : (n : ℕ) (j id : String) (s : World) → KeepsAt R (dispatch env n j id) s
  unfolding dispatch
  dispatch-Keeps n j id s = search (step_rules, dispatch_chosen-Keeps) depth 20

  pub or_stale-Keeps : (o : Option Attempt) (s : World) → KeepsAt R (or_stale o) s
  unfolding or_stale
  or_stale-Keeps none s = search step_rules
  or_stale-Keeps (some a) s = search step_rules

  pub attempt_state-Keeps :
      (n : ℕ) (a : String) (to : JobState) (e : Option String) (s : World)
      → KeepsAt R (attempt_state env n a to e) s
  unfolding attempt_state
  attempt_state-Keeps n a to e s =
      search (step_rules, KeepsAt-then, or_stale-Keeps, p.move_attempt_rule, p.doubt_leases_rule)
        depth 20

  deployments-refreshed :
      (r : Registered) (s : World)
      → In r s.deployments
      → In r (on s (refresh_queue env.clock)).deployments
  deployments-refreshed r s h =
      subst (λ (ds : List Registered). In r ds)
        (sym (ap (λ (d : Db). d.deployments) (refresh_queue-frame env.clock s.db))) h

  legacy_lease-Keeps :
      (l : Lease) (r : Registered) (s : World) (b : Bool)
      → In r s.deployments
      → (b || leb r.spec.load.capacity (length s.leases)) ≡ false
      → KeepsAt R (insert_lease l) (on s spend_generation)
  unfolding spend_generation
  legacy_lease-Keeps l r s b h k = insert_lease-Keeps l r (on s spend_generation) h (split b _ k).1

  pub legacy_admit-Keeps :
      (r d e o : String) (l : Option ℕ) (s : World) → KeepsAt R (legacy_admit env r d e o l) s
  unfolding legacy_admit
  legacy_admit-Keeps r d e o l s = KeepsAt-bind-raise_if p.order _ _ _ s λ fits. tx-Keeps p _ s (
      state-bind p _ s (
        KeepsAt-bind-raise_if p.order _ _ _ s λ ready. deployment-bind p d _ s λ x h.
          choose-bind p _ s λ chosen. KeepsAt-bind-gets p.order _ _ _ (
            KeepsAt-bind-raise_if p.order _ _ _ _ λ room. KeepsAt-bind-gets p.order _ _ _ (
              KeepsAt-bind-raise_if p.order _ _ _ _ λ unspent. check-bind p 0 1 _ _ λ allowed.
                exec-bind p spend_generation _ _ (p.spend_generation_rule _ unspent allowed) (
                  KeepsAt-then p.order _ _ _
                    (legacy_lease-Keeps _ x _ _ (deployments-refreshed x s h) room)
                    λ u t. add_grant-Keeps r _ _ _ _ t)))))

  pub legacy_terminal-Keeps :
      (r e o : String) (b : Bool) (s : World) → KeepsAt R (legacy_terminal env r e o b) s
  unfolding legacy_terminal
  legacy_terminal-Keeps r e o b s =
      search (step_rules, p.release_lease_rule, p.doubt_leases_rule) depth 20

  pub legacy_detach-Keeps : (r o : String) (s : World) → KeepsAt R (legacy_detach env r o) s
  unfolding legacy_detach
  legacy_detach-Keeps r o s = search (step_rules, p.detach_lease_rule) depth 20

  pub legacy_restart-Keeps : (o : String) (s : World) → KeepsAt R (legacy_restart env o) s
  unfolding legacy_restart
  legacy_restart-Keeps o s = search (step_rules, p.doubt_orphaned_rule) depth 20
