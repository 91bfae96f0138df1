-- ===== src/Store/Fencing.antt =====
-- The transactions of the class Store of selfhost_models/scheduler_store.py whose methods take the
-- controller's epoch: all those that call `fenced`.
use selfhost_models.Prelude.{ℕ, String, ◌≡◌, ◌≢◌, Option, false, eqb, eqb_iff, Bool-cases, inl, inr}
use selfhost_models.Action.{Result, ok, err, scheduler, ◌>>=◌}
use selfhost_models.Schema.Deployment.{Deployment}
use selfhost_models.Tables.{JobState, Phase, Grant}
use selfhost_models.Store.Base.{World, Env, Method, tx, fenced, finish, state}
use selfhost_models.Store.Control.{
  heartbeat, phase, engine_exited, cleanup_done, preparation_failed, lifecycle_failed,
}
use selfhost_models.Store.Budget.{reserve_load}
use selfhost_models.Store.Queue.{next_job}
use selfhost_models.Store.Dispatch.{dispatch, attempt_state}
use selfhost_models.Store.Receipts.{
  record_result, import_receipt, publish_result, note_failure, recover_saved,
}

-- These transactions, with their arguments.
pub data Call : Type 0 where
  heartbeat_call : Call
  phase_call : Phase → Option String → Option String → Option String → Call
  engine_exited_call : Call
  cleanup_done_call : String → Call
  preparation_failed_call : String → String → Call
  lifecycle_failed_call : String → Call
  reserve_load_call : Deployment → Call
  next_job_call : Call
  dispatch_call : String → String → Call
  attempt_state_call : String → JobState → Option String → Call
  record_result_call : String → String → Option String → Call
  import_receipt_call : String → String → Option String → Grant → Call
  publish_call : String → Call
  note_failure_call : String → Call
  recover_saved_call : Call

-- The result of a call, whose value is passed over.
abbrev done : {A : Type 0} → Result A × World → Result Unit × World
done (ok a, w) = (ok tt, w)
done (err e, w) = (err e, w)

pub run_call : Env → ℕ → Call → Method Unit
run_call env n heartbeat_call w = heartbeat env n w
run_call env n (phase_call p d e h) w = phase env n p d e h w
run_call env n engine_exited_call w = engine_exited env n w
run_call env n (cleanup_done_call h) w = cleanup_done env n h w
run_call env n (preparation_failed_call j e) w = preparation_failed env n j e w
run_call env n (lifecycle_failed_call d) w = lifecycle_failed env n d w
run_call env n (reserve_load_call d) w = reserve_load env n d w
run_call env n next_job_call w = done (next_job env n w)
run_call env n (dispatch_call j a) w = done (dispatch env n j a w)
run_call env n (attempt_state_call a s e) w = attempt_state env n a s e w
run_call env n (record_result_call a r e) w = record_result env n a r e w
run_call env n (import_receipt_call a r e g) w = done (import_receipt env n a r e g w)
run_call env n (publish_call a) w = publish_result env n a w
run_call env n (note_failure_call a) w = note_failure env n a w
run_call env n recover_saved_call w = done (recover_saved env n w)

stale : {epoch : ℕ} (w : World) → w.controller.epoch ≢ epoch → eqb w.controller.epoch epoch ≡ false
stale {epoch} w h = elim (Bool-cases (eqb w.controller.epoch epoch)) [
  | inl e ↦ absurd (h ((eqb_iff _ _).0 e))
  | inr e ↦ e
]

-- Each of the fifteen transactions that a Call names, when it is made with an epoch that is not
-- the current one, raises stale_controller, and nothing changes, neither in the database nor in the
-- files.
pub run_call-stale :
    (env : Env) (epoch : ℕ) (c : Call) (w : World)
    → w.controller.epoch ≢ epoch
    → run_call env epoch c w ≡ (err (scheduler "stale_controller" 409), w)
unfolding run_call heartbeat phase engine_exited cleanup_done preparation_failed lifecycle_failed
    reserve_load next_job dispatch attempt_state record_result import_receipt publish_result
    note_failure recover_saved tx finish fenced state ◌>>=◌
run_call-stale env epoch heartbeat_call w h = rw (stale w h)
run_call-stale env epoch _ w h = rw (stale w h)
