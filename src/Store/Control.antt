-- ===== src/Store/Control.antt =====
-- The life of the controller and of its engine: acquire_controller, heartbeat, phase,
-- engine_exited, cleanup_pending, cleanup_done, preparation_failed, lifecycle_failed and
-- resume_deployment of selfhost_models/scheduler_store.py.
pub mod Takeover
use selfhost_models.Prelude.{
  ℕ, ◌+◌, String, Bool, true, false, ◌&&◌, ◌||◌, not, Option, none, some, List, [], ◌∷◌, map, is,
  is_some, same, truthy, or_else, coalesce, ◌==◌, if◌then◌else◌,
}
use selfhost_models.Sql.{exists, update, delete, insert_or_ignore, insert_or_replace}
use selfhost_models.Action.{scheduler, pure, gets, raise_if, when, ◌>>=◌, ◌>>◌}
use selfhost_models.Schema.Deployment.{Deployment}
use selfhost_models.Tables.{
  Db, Job, JobState, Phase, LeaseState, Controller, Cleanup, unloaded, failed, is_queued,
  is_inflight, is_unloaded, is_loading, is_transition, phase_text, text, number, Detail,
}
use selfhost_models.Store.Base.{
  World, Env, Method, execute, tx, event, state, fenced, deployment, pin,
}

-- SELECT 1 FROM leases
unfoldable pub has_leases : World → Bool
has_leases w = exists (λ l. true) w.leases

-- UPDATE jobs SET state='failed',error=?,ended=?,reservation=0 WHERE ... AND state='queued'
unfoldable pub fail_queued : Env → String → (Job → Bool) → Db → Db
fail_queued env error p d = record d {
  jobs =
      update (λ j. p j && is_queued j.state)
        (λ j. record j {
          state = failed;
          error = some error;
          ended = some env.clock;
          reservation = 0;
        })
        d.jobs;
}

-- UPDATE jobs SET state='unknown',error=? WHERE state IN ('dispatching','running','draining')
unfoldable pub lose_inflight : String → Db → Db
lose_inflight error d = record d {
  jobs =
      update (λ j. is_inflight j.state)
        (λ j. record j { state = JobState.unknown; error = some error }) d.jobs;
}

-- DELETE FROM pins WHERE owner='model'
unfoldable pub unpin_model : Db → Db
unpin_model d = record d { pins = delete (λ p. p.owner == "model") d.pins }

-- UPDATE controller SET phase='unloaded',deployment=NULL,worker_epoch=NULL,handle=NULL
unfoldable pub unload : Db → Db
unload d = record d {
  controller = record d.controller {
    phase = unloaded;
    deployment = none;
    worker_epoch = none;
    handle = none;
  };
}

-- INSERT OR REPLACE INTO blocked_deployments VALUES(?, reason)
unfoldable pub block : Option String → String → Db → Db
block id reason d = record d {
  blocked =
      insert_or_replace (λ b. elim id [ none ↦ false | some i ↦ is b.id i ])
        (record { id = id; reason = reason }) d.blocked;
}

unfoldable pub has_deployment : Option String → Job → Bool
has_deployment id j = is id j.deployment

-- The branch of acquire_controller for a load that was never started.
unfoldable pub preparation_interrupted : Env → Controller → Method Unit
preparation_interrupted env s = do
  execute (block s.deployment "preparation_interrupted")
  execute (fail_queued env "preparation_interrupted" (has_deployment s.deployment))
  execute unpin_model
  execute unload
  execute (event env "preparation_interrupted" s.deployment [])

-- The controller's row and what the previous controller left in flight.
unfoldable pub take_over : Env → ℕ → Phase → Db → Db
take_over env epoch phase d =
    let lost = lose_inflight "controller_restarted" d in
    record lost {
      controller = record lost.controller { epoch = epoch; phase = phase; heartbeat = env.clock };
      leases = update (λ l. true) (λ l. record l { state = LeaseState.unknown }) lost.leases;
    }

unfoldable pub acquire_controller : Env → Method ℕ
acquire_controller env = tx env do
  s ← state
  let epoch = s.epoch + 1
  leased ← gets has_leases
  when (is_loading s.phase && (not (is_some s.handle) && not leased))
      (preparation_interrupted env s)
  s ← state
  let phase : Phase = if is_unloaded s.phase then unloaded else Phase.unknown
  execute (take_over env epoch phase)
  execute (event env "controller_acquired" none (("epoch", number epoch) ∷ []))
  pure epoch

unfoldable pub beat : Env → Db → Db
beat env d = record d { controller = record d.controller { heartbeat = env.clock } }

unfoldable pub heartbeat : Env → ℕ → Method Unit
heartbeat env epoch = tx env do fenced epoch; execute (beat env)

-- INSERT OR IGNORE INTO pins VALUES('model', asset_ref), if there is a deployment
unfoldable pub pin_model : Option String → Method Unit
pin_model none = pure tt
pin_model (some dep) = do spec ← deployment dep; execute (pin "model" spec.asset_ref)

unfoldable pub phase : Env → ℕ → Phase → Option String → Option String → Option String → Method Unit
phase env epoch to dep worker_epoch handle = tx env do
  s ← fenced epoch
  leased ← gets has_leases
  raise_if (is_transition to && leased) (scheduler "leases_unresolved" 409)
  let now_dep : Option String = coalesce dep s.deployment
  execute (λ d. record d {
    controller = record d.controller {
      phase = to;
      deployment = now_dep;
      worker_epoch = or_else worker_epoch s.worker_epoch;
      handle = or_else handle s.handle;
      changed = env.clock;
    };
  })
  when (truthy now_dep) (pin_model now_dep)
  let moved = not (phase_text to == phase_text s.phase) || not (same now_dep s.deployment)
  execute (
      event env (if moved then "model_phase" else "model_handle_reserved") now_dep
        (("phase", text (phase_text to)) ∷ []))

-- INSERT OR IGNORE INTO engine_cleanup VALUES(handle, state)
unfoldable pub remember_cleanup : Controller → Db → Db
remember_cleanup s d = record d {
  cleanup = elim s.handle [
    | none ↦ d.cleanup
    | some h ↦ insert_or_ignore (λ c. c.handle == h) (record { handle = h; state = s }) d.cleanup
  ];
}

-- DELETE FROM leases
unfoldable pub clear_leases : Db → Db
clear_leases d = record d { leases = [] }

unfoldable pub engine_exited : Env → ℕ → Method Unit
engine_exited env epoch = tx env do
  s ← fenced epoch
  when (truthy s.handle) (execute (remember_cleanup s))
  execute (lose_inflight "engine_exited_unknown")
  execute clear_leases
  execute unpin_model
  execute unload
  execute
      (λ d. record d { controller = record d.controller { reuse_count = 0; changed = env.clock } })
  execute (event env "engine_exit_confirmed" none [])

unfoldable pub cleanup_pending : Method (List Controller)
cleanup_pending = gets (λ w. map (λ (c : Cleanup). c.state) w.cleanup)

unfoldable pub cleanup_done : Env → ℕ → String → Method Unit
cleanup_done env epoch handle = tx env do
  fenced epoch
  execute (λ d. record d { cleanup = delete (λ c. c.handle == handle) d.cleanup })

unfoldable pub preparation_failed : Env → ℕ → String → String → Method Unit
preparation_failed env epoch jid error = tx env do
  s ← fenced epoch
  leased ← gets has_leases
  raise_if (not (is_loading s.phase) || (is_some s.handle || leased))
      (scheduler "external_load_intent_exists" 409)
  execute (fail_queued env error (λ j. j.id == jid))
  execute unpin_model
  execute unload
  execute (event env "asset_preparation_failed" (some jid) [])

unfoldable pub lifecycle_failed : Env → ℕ → String → Method Unit
lifecycle_failed env epoch dep = tx env do
  fenced epoch
  execute (block (some dep) "lifecycle_failed")
  execute (fail_queued env "lifecycle_failed" (λ j. j.deployment == dep))
  execute (event env "deployment_blocked" (some dep) [])

unfoldable pub resume_deployment : Env → String → Method Unit
resume_deployment env ref = tx env do
  s ← state
  leased ← gets has_leases
  raise_if (not (is_unloaded s.phase) || leased) (scheduler "engine_exit_unconfirmed" 409)
  execute (λ d. record d { blocked = delete (λ b. is b.id ref) d.blocked })
  execute (event env "operator_resumed_deployment" (some ref) [])
