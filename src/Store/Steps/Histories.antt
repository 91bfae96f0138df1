-- ===== src/Store/Steps/Histories.antt =====
-- A relation that has the rules holds across every step, and along every history.
use selfhost_models.Prelude.{◌≡◌}
use selfhost_models.Action.Keeps.{IsPreorder}
use selfhost_models.Schema.Deployment.{Config}
use selfhost_models.Store.Base.{World, Env}
use selfhost_models.Store.Steps.{
  Step, Reach, here, next, acquire_controller_step, heartbeat_step, phase_step, engine_exited_step,
  cleanup_done_step, preparation_failed_step, lifecycle_failed_step, resume_deployment_step,
  reserve_load_step, open_budget_window_step, close_budget_window_step, next_job_step, cancel_step,
  execution_ack_step, dispatch_step, attempt_state_step, legacy_admit_step, legacy_terminal_step,
  legacy_detach_step, legacy_restart_step, upload_step, submit_step, record_result_step,
  terminal_step, import_receipt_step, import_executor_receipt_step, recover_receipts_step,
  recover_saved_step, note_failure_step, publish_result_step, publish_step, collect_rows_step,
  sweep_step, collect_step,
}
use selfhost_models.Store.Steps.Rules.{Rules}
use selfhost_models.Store.Steps.Lifecycle.{
  acquire_controller-Keeps, heartbeat-Keeps, phase-Keeps, engine_exited-Keeps, cleanup_done-Keeps,
  preparation_failed-Keeps, lifecycle_failed-Keeps, resume_deployment-Keeps,
}
use selfhost_models.Store.Steps.Queueing.{
  reserve_load-Keeps, open_budget_window-Keeps, close_budget_window-Keeps, next_job-Keeps,
  cancel-Keeps,
}
use selfhost_models.Store.Steps.Leasing.{
  execution_ack-Keeps, dispatch-Keeps, attempt_state-Keeps, legacy_admit-Keeps,
  legacy_terminal-Keeps, legacy_detach-Keeps, legacy_restart-Keeps,
}
use selfhost_models.Store.Steps.Quiet.{upload-Keeps}
use selfhost_models.Store.Steps.Submitting.{submit-Keeps}
use selfhost_models.Store.Steps.Finishing.{
  record_result-Keeps, publish_result-Keeps, publish-Keeps, terminal-Keeps, recover_receipts-Keeps,
  recover_saved-Keeps, note_failure-Keeps, import_receipt-Keeps, import_executor_receipt-Keeps,
}
use selfhost_models.Store.Steps.Collecting.{collect_rows-Keeps, sweep-Keeps, collect-Keeps}

module _ {env : Env} {R : World → World → Type 0} (p : Rules env R) where
  pub Step-holds : {s t : World} → Step env s t → R s t
  Step-holds acquire_controller_step = (acquire_controller-Keeps p _).at
  Step-holds (heartbeat_step n) = (heartbeat-Keeps p n _).at
  Step-holds (phase_step n x d e h) = (phase-Keeps p n x d e h _).at
  Step-holds (engine_exited_step n) = (engine_exited-Keeps p n _).at
  Step-holds (cleanup_done_step n h) = (cleanup_done-Keeps p n h _).at
  Step-holds (preparation_failed_step n j e) = (preparation_failed-Keeps p n j e _).at
  Step-holds (lifecycle_failed_step n d) = (lifecycle_failed-Keeps p n d _).at
  Step-holds (resume_deployment_step d) = (resume_deployment-Keeps p d _).at
  Step-holds (reserve_load_step n d) = (reserve_load-Keeps p n d _).at
  Step-holds (open_budget_window_step name l g) = (open_budget_window-Keeps p name l g _).at
  Step-holds (close_budget_window_step name) = (close_budget_window-Keeps p name _).at
  Step-holds (next_job_step n) = (next_job-Keeps p n _).at
  Step-holds (cancel_step j) = (cancel-Keeps p j _).at
  Step-holds (execution_ack_step a) = (execution_ack-Keeps p a _).at
  Step-holds (dispatch_step n j uuid) = (dispatch-Keeps p n j uuid _).at
  Step-holds (attempt_state_step n a to e) = (attempt_state-Keeps p n a to e _).at
  Step-holds (legacy_admit_step r d e o l) = (legacy_admit-Keeps p r d e o l _).at
  Step-holds (legacy_terminal_step r e o b) = (legacy_terminal-Keeps p r e o b _).at
  Step-holds (legacy_detach_step r o) = (legacy_detach-Keeps p r o _).at
  Step-holds (legacy_restart_step o) = (legacy_restart-Keeps p o _).at
  Step-holds (upload_step b m d) = (upload-Keeps p b m d _).at
  Step-holds (submit_step j k uuid) = (submit-Keeps p j k uuid _).at
  Step-holds (record_result_step n a r e) = (record_result-Keeps p n a r e _).at
  Step-holds (terminal_step n a r e) = (terminal-Keeps p n a r e _).at
  Step-holds (import_receipt_step n a r e g) = (import_receipt-Keeps p n a r e g _).at
  Step-holds (import_executor_receipt_step n a r e g) =
      (import_executor_receipt-Keeps p n a r e g _).at
  Step-holds (recover_saved_step n) = (recover_saved-Keeps p n _).at
  Step-holds (recover_receipts_step n) = (recover_receipts-Keeps p n _).at
  Step-holds (publish_result_step n a) = (publish_result-Keeps p n a _).at
  Step-holds (note_failure_step n a) = (note_failure-Keeps p n a _).at
  Step-holds (publish_step n a) = (publish-Keeps p n a _).at
  Step-holds collect_rows_step = (collect_rows-Keeps p _).at
  Step-holds sweep_step = (sweep-Keeps p _).at
  Step-holds collect_step = (collect-Keeps p _).at

-- Along a history whose calls have the one configuration.
pub Reach-holds :
    {R : World → World → Type 0} {config : Config}
    → IsPreorder R
    → ((env : Env) → env.config ≡ config → Rules env R)
    → {s t : World} → Reach config s t
    → R s t
Reach-holds o p here = o.same _
Reach-holds o p (next r env e x) = o.step _ _ _ (Reach-holds o p r) (Step-holds (p env e) x)
