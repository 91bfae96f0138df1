-- ===== src/Store/Steps/Lifecycle.antt =====
-- The controller's methods hold a relation that has the rules.
use selfhost_models.Prelude.{ℕ, String, Option, none, some}
use selfhost_models.Action.Keeps.{KeepsAt}
use selfhost_models.Tables.{Phase, Controller}
use selfhost_models.Store.Base.{World, Env, event, pin}
use selfhost_models.Store.Control.{
  acquire_controller, heartbeat, phase, engine_exited, cleanup_done, preparation_failed,
  lifecycle_failed, resume_deployment, preparation_interrupted, pin_model, beat, block, unpin_model,
  unload, remember_cleanup,
}
use selfhost_models.Store.Steps.Rules.{Rules}
use selfhost_models.Store.Steps.Parts.{step_rules}

module _ {env : Env} {R : World → World → Type 0} (p : Rules env R) where
  preparation_interrupted-Keeps :
      (c : Controller) (s : World) → KeepsAt R (preparation_interrupted env c) s
  unfolding preparation_interrupted block unpin_model unload event
  preparation_interrupted-Keeps c s = search (step_rules, p.fail_queued_rule) depth 20

  pub acquire_controller-Keeps : (s : World) → KeepsAt R (acquire_controller env) s
  unfolding acquire_controller event
  acquire_controller-Keeps s =
      search (step_rules, preparation_interrupted-Keeps, p.take_over_rule) depth 20

  pub heartbeat-Keeps : (n : ℕ) (s : World) → KeepsAt R (heartbeat env n) s
  unfolding heartbeat beat
  heartbeat-Keeps n s = search step_rules depth 20

  pin_model-Keeps : (d : Option String) (s : World) → KeepsAt R (pin_model d) s
  unfolding pin_model pin
  pin_model-Keeps none s = search step_rules depth 20
  pin_model-Keeps (some d) s = search step_rules depth 20

  pub phase-Keeps :
      (n : ℕ) (to : Phase) (d e h : Option String) (s : World) → KeepsAt R (phase env n to d e h) s
  unfolding phase event
  phase-Keeps n to d e h s = search (step_rules, pin_model-Keeps) depth 20

  pub engine_exited-Keeps : (n : ℕ) (s : World) → KeepsAt R (engine_exited env n) s
  unfolding engine_exited remember_cleanup unpin_model unload event
  engine_exited-Keeps n s = search (step_rules, p.lose_inflight_rule, p.clear_leases_rule) depth 20

  pub cleanup_done-Keeps : (n : ℕ) (h : String) (s : World) → KeepsAt R (cleanup_done env n h) s
  unfolding cleanup_done
  cleanup_done-Keeps n h s = search step_rules depth 20

  pub preparation_failed-Keeps :
      (n : ℕ) (j e : String) (s : World) → KeepsAt R (preparation_failed env n j e) s
  unfolding preparation_failed unpin_model unload event
  preparation_failed-Keeps n j e s = search (step_rules, p.fail_queued_rule) depth 20

  pub lifecycle_failed-Keeps :
      (n : ℕ) (d : String) (s : World) → KeepsAt R (lifecycle_failed env n d) s
  unfolding lifecycle_failed block event
  lifecycle_failed-Keeps n d s = search (step_rules, p.fail_queued_rule) depth 20

  pub resume_deployment-Keeps : (d : String) (s : World) → KeepsAt R (resume_deployment env d) s
  unfolding resume_deployment event
  resume_deployment-Keeps d s = search step_rules depth 20
