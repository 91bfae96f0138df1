-- ===== src/Store/Steps.antt =====
-- The methods of the store that change what is modelled, as steps, and the histories that they
-- make; the registration of assets, deployments and an executor is not among them. A step is one
-- call with what it was given from outside; processes interleave by calling in any order, and a
-- call that raises leaves the state that it had reached.
pub mod Rules
pub mod Parts
pub mod Quiet
pub mod Submitting
pub mod Finishing
pub mod Collecting
pub mod Histories
pub mod Lifecycle
pub mod Queueing
pub mod Leasing
use selfhost_models.Prelude.{ℕ, String, ◌≡◌, Bool, Option, List}
use selfhost_models.Action.{Result}
use selfhost_models.Schema.Deployment.{Deployment, Config}
use selfhost_models.Schema.Job.{SubmitJob}
use selfhost_models.Tables.{Db, Phase, JobState, Grant}
use selfhost_models.Store.Base.{World, Env, Method}
use selfhost_models.Store.Control.{
  acquire_controller, heartbeat, phase, engine_exited, cleanup_done, preparation_failed,
  lifecycle_failed, resume_deployment,
}
use selfhost_models.Store.Budget.{reserve_load, open_budget_window, close_budget_window}
use selfhost_models.Store.Queue.{next_job, cancel}
use selfhost_models.Store.Grants.{execution_ack}
use selfhost_models.Store.Dispatch.{
  dispatch, attempt_state, legacy_admit, legacy_terminal, legacy_detach, legacy_restart,
}
use selfhost_models.Store.Artifacts.{upload}
use selfhost_models.Store.Submission.{submit}
use selfhost_models.Store.Receipts.{
  terminal, record_result, import_executor_receipt, import_receipt, recover_receipts, publish,
  publish_result, note_failure, recover_saved,
}
use selfhost_models.Store.Collection.{collect, collect_rows, sweep}

-- The state that a call leaves.
abbrev pub after : {A : Type 0} → Method A → World → World
after m w = (m w).1

-- `Step env s t`: a call with `env` leads from `s` to `t`. A method of several transactions also
-- stands by its transactions, between which other calls may come.
pub data Step (env : Env) (s : World) : World → Type 0 where
  acquire_controller_step : Step env s (after (acquire_controller env) s)
  heartbeat_step : (n : ℕ) → Step env s (after (heartbeat env n) s)
  phase_step :
      (n : ℕ) (p : Phase) (d e h : Option String) → Step env s (after (phase env n p d e h) s)
  engine_exited_step : (n : ℕ) → Step env s (after (engine_exited env n) s)
  cleanup_done_step : (n : ℕ) (h : String) → Step env s (after (cleanup_done env n h) s)
  preparation_failed_step :
      (n : ℕ) (j e : String) → Step env s (after (preparation_failed env n j e) s)
  lifecycle_failed_step : (n : ℕ) (d : String) → Step env s (after (lifecycle_failed env n d) s)
  resume_deployment_step : (d : String) → Step env s (after (resume_deployment env d) s)
  reserve_load_step : (n : ℕ) (d : Deployment) → Step env s (after (reserve_load env n d) s)
  open_budget_window_step :
      (name : String) (l g : ℕ) → Step env s (after (open_budget_window env name l g) s)
  close_budget_window_step : (name : String) → Step env s (after (close_budget_window env name) s)
  next_job_step : (n : ℕ) → Step env s (after (next_job env n) s)
  cancel_step : (j : String) → Step env s (after (cancel env j) s)
  execution_ack_step : (a : String) → Step env s (after (execution_ack env a) s)
  dispatch_step : (n : ℕ) (j uuid : String) → Step env s (after (dispatch env n j uuid) s)
  attempt_state_step :
      (n : ℕ) (a : String) (to : JobState) (e : Option String)
      → Step env s (after (attempt_state env n a to e) s)
  legacy_admit_step :
      (r d e o : String) (l : Option ℕ) → Step env s (after (legacy_admit env r d e o l) s)
  legacy_terminal_step :
      (r e o : String) (b : Bool) → Step env s (after (legacy_terminal env r e o b) s)
  legacy_detach_step : (r o : String) → Step env s (after (legacy_detach env r o) s)
  legacy_restart_step : (o : String) → Step env s (after (legacy_restart env o) s)
  upload_step :
      (b : List ℕ) (m : String) (d : Option String) → Step env s (after (upload env b m d) s)
  submit_step : (j : SubmitJob) (k uuid : String) → Step env s (after (submit env j k uuid) s)
  record_result_step :
      (n : ℕ) (a r : String) (e : Option String) → Step env s (after (record_result env n a r e) s)
  terminal_step :
      (n : ℕ) (a r : String) (e : Option String) → Step env s (after (terminal env n a r e) s)
  import_receipt_step :
      (n : ℕ) (a r : String) (e : Option String) (g : Grant)
      → Step env s (after (import_receipt env n a r e g) s)
  import_executor_receipt_step :
      (n : ℕ) (a r : String) (e : Option String) (g : Grant)
      → Step env s (after (import_executor_receipt env n a r e g) s)
  recover_saved_step : (n : ℕ) → Step env s (after (recover_saved env n) s)
  recover_receipts_step : (n : ℕ) → Step env s (after (recover_receipts env n) s)
  publish_result_step : (n : ℕ) (a : String) → Step env s (after (publish_result env n a) s)
  note_failure_step : (n : ℕ) (a : String) → Step env s (after (note_failure env n a) s)
  publish_step : (n : ℕ) (a : String) → Step env s (after (publish env n a) s)
  collect_rows_step : Step env s (after (collect_rows env) s)
  sweep_step : Step env s (after (sweep env) s)
  collect_step : Step env s (after (collect env) s)

-- A history of calls, all with the one configuration of the store.
pub data Reach (config : Config) (s : World) : World → Type 0 where
  here : Reach config s s
  next :
      {t u : World}
      → Reach config s t
      → (env : Env) → env.config ≡ config
      → Step env t u
      → Reach config s u
