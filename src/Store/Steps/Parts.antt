-- ===== src/Store/Steps/Parts.antt =====
-- The rules of Rules for the actions that the methods are made of.
use selfhost_models.Prelude.{
  ℕ, ◌≡◌, refl, String, Bool, true, false, Option, none, some, eqb, ◌==◌, Bool-cases, Option-cases,
  inl, inr,
}
use selfhost_models.Sql.{first}
use selfhost_models.Sql.Members.{In, first-In}
use selfhost_models.Action.{Result, ok, err, when, lift, modify, succeeds, caught, not_null, ◌>>=◌}
use selfhost_models.Action.Keeps.{
  IsPreorder, KeepsAt, KeepsAt-pure, KeepsAt-raise, KeepsAt-lift, KeepsAt-gets, KeepsAt-row,
  KeepsAt-if, KeepsAt-raise_if, KeepsAt-when, KeepsAt-then, KeepsAt-bind-gets,
  KeepsAt-bind-raise_if, KeepsAt-bind-row,
}
use selfhost_models.Tables.{Db, Job, Registered, Controller}
use selfhost_models.Store.Base.{
  World, Env, Method, execute, tx, finish, state, fenced, fault, deployment, or_not_found,
}
use selfhost_models.Store.Budget.{window_allows, check_budget_window}
use selfhost_models.Store.Queue.{choose, refresh_queue}
use selfhost_models.Store.Queue.Choice.{choose_lem}
use selfhost_models.Store.Steps.Rules.{Rules, on, core}

module _ {env : Env} {R : World → World → Type 0} (p : Rules env R) where
  finish-Keeps : {A : Type 0} (s t : World) (r : Result A) → R s t → R s (finish env s r t).1
  unfolding finish
  finish-Keeps s t (err e) h = p.rollback s t h
  finish-Keeps s t (ok a) h = elim (Option-cases (env.fault "before_commit")) [
    | inl e ↦ rw (e, finish) h
    | inr (x, e) ↦ rw (e, finish) (p.rollback s t h)
  ]

  pub tx-Keeps : {A : Type 0} (m : Method A) (s : World) → KeepsAt R m s → KeepsAt R (tx env m) s
  unfolding tx
  tx-Keeps m s k = record { at = finish-Keeps s (m s).1 (m s).0 k.at }

  pub exec-last : (f : Db → Db) (s : World) → R s (on s f) → KeepsAt R (execute f) s
  unfolding execute modify
  exec-last f s h = record { at = h }

  -- A statement on what the relation does not look at.
  pub quiet-last : (f : Db → Db) (s : World) → core (on s f) ≡ core s → KeepsAt R (execute f) s
  quiet-last f s e = exec-last f s (p.quiet s (on s f) e)

module _ {env : Env} {R : World → World → Type 0} (p : Rules env R) {B : Type 0} where
  pub exec-bind :
      (f : Db → Db) (k : Unit {0} → Method B) (s : World)
      → R s (on s f)
      → KeepsAt R (k tt) (on s f)
      → KeepsAt R (execute f >>= k) s
  unfolding execute ◌>>=◌
  exec-bind f k s h r = record { at = p.order.step s (on s f) _ h r.at }

  pub quiet-bind :
      (f : Db → Db) (k : Unit {0} → Method B) (s : World)
      → core (on s f) ≡ core s
      → KeepsAt R (k tt) (on s f)
      → KeepsAt R (execute f >>= k) s
  quiet-bind f k s e r = exec-bind f k s (p.quiet s (on s f) e) r

  pub state-bind :
      (k : Controller → Method B) (s : World)
      → KeepsAt R (k s.controller) s
      → KeepsAt R (state >>= k) s
  unfolding state ◌>>=◌
  state-bind k s r = record { at = r.at }

  pub fenced-bind :
      (n : ℕ) (k : Controller → Method B) (s : World)
      → KeepsAt R (k s.controller) s
      → KeepsAt R (fenced n >>= k) s
  unfolding fenced state ◌>>=◌
  fenced-bind n k s r = elim (Bool-cases (eqb s.controller.epoch n)) [
    | inl e ↦ record { at = rw e r.at }
    | inr e ↦ record { at = rw e (p.order.same s) }
  ]

  pub fault-bind :
      (point : String) (k : Unit {0} → Method B) (s : World)
      → KeepsAt R (k tt) s
      → KeepsAt R (fault env point >>= k) s
  unfolding fault ◌>>=◌
  fault-bind point k s r = elim (Option-cases (env.fault point)) [
    | inl e ↦ record { at = rw (e, fault) r.at }
    | inr (x, e) ↦ record { at = rw (e, fault) (p.order.same s) }
  ]

  pub lift-bind :
      {A : Type 0} (x : Result A) (k : A → Method B) (s : World)
      → ((a : A) → KeepsAt R (k a) s)
      → KeepsAt R (lift x >>= k) s
  unfolding ◌>>=◌
  lift-bind (ok a) k s r = record { at = (r a).at }
  lift-bind (err e) k s r = record { at = p.order.same s }

  pub not_null-bind :
      (x : Option String) (k : String → Method B) (s : World)
      → ((a : String) → KeepsAt R (k a) s)
      → KeepsAt R (not_null x >>= k) s
  unfolding not_null ◌>>=◌
  not_null-bind none k s r = record { at = p.order.same s }
  not_null-bind (some a) k s r = record { at = (r a).at }

  found-bind :
      (ref : String) (k : _ → Method B) (s : World) (o : Option Registered)
      → ((r : Registered) → o ≡ some r → KeepsAt R (k r.spec) s)
      → KeepsAt R (or_not_found "deployment_not_found" o >>= k) s
  unfolding or_not_found ◌>>=◌
  found-bind ref k s none h = record { at = p.order.same s }
  found-bind ref k s (some r) h = record { at = (h r refl).at }

  pub deployment-bind :
      (ref : String) (k : _ → Method B) (s : World)
      → ((r : Registered) → In r s.deployments → KeepsAt R (k r.spec) s)
      → KeepsAt R (deployment ref >>= k) s
  unfolding deployment ◌>>=◌
  deployment-bind ref k s h = record {
    at =
        (found-bind ref k s (first (λ r. r.id == ref) s.deployments)
          (λ r e. h r (first-In _ r s.deployments e))).at;
  }

  pub choose-bind :
      (k : Option Job → Method B) (s : World)
      → ((o : Option Job) → KeepsAt R (k o) (on s (refresh_queue env.clock)))
      → KeepsAt R (choose env >>= k) s
  unfolding ◌>>=◌
  choose-bind k s h = record {
    at =
        rw choose_lem
          (p.order.step s (on s (refresh_queue env.clock)) _ (p.refresh_queue_rule s) (h _).at);
  }

  pub check-bind :
      (l g : ℕ) (k : Unit {0} → Method B) (s : World)
      → (window_allows l g s ≡ true → KeepsAt R (k tt) s)
      → KeepsAt R (check_budget_window l g >>= k) s
  unfolding check_budget_window ◌>>=◌
  check-bind l g k s h = elim (Bool-cases (window_allows l g s)) [
    | inl e ↦ record { at = rw e (h e).at }
    | inr e ↦ record { at = rw e (p.order.same s) }
  ]

  pub succeeds-bind :
      (l g : ℕ) (k : Bool → Method B) (s : World)
      → ((b : Bool) → window_allows l g s ≡ b → KeepsAt R (k b) s)
      → KeepsAt R (succeeds (check_budget_window l g) >>= k) s
  unfolding check_budget_window succeeds caught ◌>>=◌
  succeeds-bind l g k s h = elim (Bool-cases (window_allows l g s)) [
    | inl e ↦ record { at = rw e (h true e).at }
    | inr e ↦ record { at = rw e (h false e).at }
  ]

module _ {env : Env} {R : World → World → Type 0} (p : Rules env R) {B : Type 0} where
  pub when-bind :
      (b : Bool) (m : Method Unit) (k : Unit {0} → Method B) (s : World)
      → (b ≡ true → KeepsAt R m s)
      → ((t : World) → KeepsAt R (k tt) t)
      → KeepsAt R (when b m >>= k) s
  when-bind b m k s h r =
      KeepsAt-then p.order (when b m) k s (KeepsAt-when p.order b m s h) (λ u t. r t)

-- Without `KeepsAt-then`, which fits every sequence.
pub ruleset step_rules = (
  tx-Keeps, quiet-last, exec-last, quiet-bind, exec-bind, state-bind, fenced-bind, fault-bind,
  lift-bind, not_null-bind, deployment-bind, choose-bind, check-bind, succeeds-bind, when-bind,
  KeepsAt-pure, KeepsAt-raise, KeepsAt-lift, KeepsAt-gets, KeepsAt-row, KeepsAt-if,
  KeepsAt-raise_if, KeepsAt-when, KeepsAt-bind-gets, KeepsAt-bind-raise_if, KeepsAt-bind-row,
)
