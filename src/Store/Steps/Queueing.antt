-- ===== src/Store/Steps/Queueing.antt =====
-- The methods of the budget and of the queue hold a relation that has the rules.
use selfhost_models.Prelude.{
  arith, ℕ, ◌+◌, ◌≡◌, String, Bool, true, false, ◌||◌, Option, none, some, leb, ltb,
}
use selfhost_models.Action.Keeps.{KeepsAt, KeepsAt-then}
use selfhost_models.Schema.Deployment.{Deployment}
use selfhost_models.Tables.{Window, Job}
use selfhost_models.Store.Base.{World, Env, event}
use selfhost_models.Store.Budget.{
  window_allows, reserve_load, open_budget_window, close_budget_window, closing, spend_load,
}
use selfhost_models.Store.Queue.{next_job, choose, cancel, job, require_job, or_job_not_found}
use selfhost_models.Store.Queue.Choice.{choose_lem}
use selfhost_models.Store.Steps.Rules.{Rules, on}
use selfhost_models.Store.Steps.Parts.{step_rules}

-- the two tests of one condition
split : (a b : Bool) → (a || b) ≡ false → (a ≡ false) × (b ≡ false)
split a b h = ground arith

module _ {env : Env} {R : World → World → Type 0} (p : Rules env R) where
  spend_load-holds :
      (s : World) (n : ℕ)
      → (leb env.config.max_load_attempts s.loads
          || ltb env.config.max_generation_attempts (s.generations + n))
        ≡ false
      → window_allows 1 n s ≡ true
      → R s (on s (spend_load n))
  spend_load-holds s n h k = let both = split _ _ h in p.spend_load_rule s n both.0 both.1 k

  pub reserve_load-Keeps : (n : ℕ) (d : Deployment) (s : World) → KeepsAt R (reserve_load env n d) s
  unfolding reserve_load event
  reserve_load-Keeps n d s = search (step_rules, spend_load-holds) depth 20

  pub open_budget_window-Keeps :
      (name : String) (l g : ℕ) (s : World) → KeepsAt R (open_budget_window env name l g) s
  unfolding open_budget_window event
  open_budget_window-Keeps name l g s = search (step_rules, p.add_window_rule) depth 20

  closing-Keeps : (name : String) (o : Option Window) (s : World) → KeepsAt R (closing env name o) s
  unfolding closing event
  closing-Keeps name none s = search step_rules depth 20
  closing-Keeps name (some v) s = search (step_rules, p.close_window_rule) depth 20

  pub close_budget_window-Keeps :
      (name : String) (s : World) → KeepsAt R (close_budget_window env name) s
  unfolding close_budget_window
  close_budget_window-Keeps name s = search (KeepsAt-then, step_rules, closing-Keeps) depth 20

  choose-Keeps : (s : World) → KeepsAt R (choose env) s
  choose-Keeps s = record { at = rw choose_lem (p.refresh_queue_rule s) }

  pub next_job-Keeps : (n : ℕ) (s : World) → KeepsAt R (next_job env n) s
  unfolding next_job
  next_job-Keeps n s = search (step_rules, choose-Keeps) depth 20

  or_job_not_found-Keeps : (o : Option Job) (s : World) → KeepsAt R (or_job_not_found o) s
  unfolding or_job_not_found
  or_job_not_found-Keeps none s = search step_rules
  or_job_not_found-Keeps (some j) s = search step_rules

  pub require_job-Keeps : (j : String) (s : World) → KeepsAt R (require_job j) s
  unfolding require_job
  require_job-Keeps j s = search (KeepsAt-then, step_rules, or_job_not_found-Keeps) depth 20

  pub cancel-Keeps : (j : String) (s : World) → KeepsAt R (cancel env j) s
  unfolding cancel job event
  cancel-Keeps j s = search (KeepsAt-then, step_rules, require_job-Keeps, p.cancel_rule) depth 20
