-- ===== src/Samples/Examples.antt =====
-- Each theorem with conditions at an input at which they hold.
use selfhost_models.Prelude.{
  ◌≡◌, refl, true, none, some, [], inl, inr, arith, ◌⊎◌, ◌==◌, ◌≤◌, ◌+◌, ◌%◌, length,
}
use selfhost_models.Action.{ok, err, scheduler}
use selfhost_models.Schema.Text.{full_match}
use selfhost_models.Schema.Deployment.{default_config}
use selfhost_models.Store.Steps.{
  after, here, next, open_budget_window_step, reserve_load_step, submit_step, dispatch_step,
}
use selfhost_models.Store.Steps.Rules.{core}
use selfhost_models.Store.Budget.{open_budget_window, reserve_load}
use selfhost_models.Store.Invariant.Spending.{IsWithin, spending-IsWithin}
use selfhost_models.Store.Invariant.Table.{IsTable, jobs-IsTable}
use selfhost_models.Store.Invariant.Rooms.{IsRoomy, leases-IsRoomy}
use selfhost_models.Store.Submission.{submit}
use selfhost_models.Store.Dispatch.{dispatch}
use selfhost_models.Sql.{total, delete, select, first, exists, update, count}
use selfhost_models.Action.{◌>>=◌}
use selfhost_models.Tables.{Job, Phase, unloaded}
use selfhost_models.Store.Base.{state, execute}
use selfhost_models.Store.Fencing.{run_call, run_call-stale, heartbeat_call, dispatch_call}
use selfhost_models.Store.Control.{acquire_controller}
use selfhost_models.Store.Control.Takeover.{
  IsDoubted, acquire_controller-IsDoubted, acquire_controller-fences,
}
use selfhost_models.Store.Queue.{
  choose, eligible, eligible_rows, is_eligible, has_parent, pick, refresh_queue, expire_overdue,
  is_overdue, cascade, is_orphan, fail_orphans, cancel, public_job,
}
use selfhost_models.Store.Queue.Refresh.{IsRefresh, refresh_queue-IsRefresh}
use selfhost_models.Store.Queue.Choice.{
  IsReady, choose-IsReady, choose-urgent, choose-oldest, choose-none,
}
use selfhost_models.Store.Queue.Cancellation.{canceled_row, cancel_lem}
use selfhost_models.Store.Submission.Repetition.{answer, submit_known}
use selfhost_models.Store.Artifacts.{valid_wav, u32}
use selfhost_models.Store.Artifacts.Wav.{valid_wav-bounds}
use selfhost_models.Schema.Chat.{
  valid_role, options_require_stream, parts_like, has_duplicates, after_messages, after_message,
}
use selfhost_models.Schema.Chat.Tools.{IsAnswered, chat-IsAnswered}
use selfhost_models.Samples.Data.{
  tool_chat, env, dep, spec, store, quiet_store, patient_store, first_job, urgent_job,
  second_urgent, urgent_store, one_sample,
}

spending-IsWithin_example : IsWithin default_config (
    core (after (reserve_load env 3 dep) (after (open_budget_window env "trial" 1 10) quiet_store)))
unfolding count select
spending-IsWithin_example =
    spending-IsWithin default_config quiet_store _
      (record {
        loads_ok = ground arith;
        generations_ok = ground arith;
        single = ground arith;
        covered = tt;
      })
      (next (next here env refl (open_budget_window_step "trial" 1 10)) env refl
        (reserve_load_step 3 dep))

store-IsTable : IsTable default_config (core store)
store-IsTable = record {
  apart = ((((ground arith), refl, refl), tt), (tt, tt));
  numbered = (ground arith, (ground arith, tt));
  kept = omega arith;
}

jobs-IsTable_example : IsTable default_config (core (after (submit env spec "key-e" "e") store))
jobs-IsTable_example =
    jobs-IsTable default_config store _ store-IsTable
      (next here env refl (submit_step spec "key-e" "e"))

leases-IsRoomy_example : IsRoomy 2 (core (after (dispatch env 3 "job_b" "attempt") store))
leases-IsRoomy_example =
    leases-IsRoomy default_config 2 store _
      (record {
        small = (ground arith, tt);
        leased = record { others = tt; few = ground arith };
        single = tt;
      })
      (next here env refl (dispatch_step 3 "job_b" "attempt"))

refresh_queue-IsRefresh_example :
    IsRefresh 100 patient_store.db (refresh_queue 100 patient_store.db)
refresh_queue-IsRefresh_example = refresh_queue-IsRefresh 100 patient_store.db

chosen_first : (choose env patient_store).0 ≡ ok (some first_job)
unfolding choose eligible eligible_rows is_eligible has_parent pick refresh_queue expire_overdue
    is_overdue cascade is_orphan fail_orphans select first exists update count execute state ◌>>=◌
chosen_first = refl

chosen_urgent : (choose env urgent_store).0 ≡ ok (some urgent_job)
unfolding choose eligible eligible_rows is_eligible has_parent pick refresh_queue expire_overdue
    is_overdue cascade is_orphan fail_orphans select first exists update count execute state ◌>>=◌
chosen_urgent = refl

choose-IsReady_example : IsReady 100 (choose env patient_store).1.db first_job
choose-IsReady_example = choose-IsReady env patient_store first_job chosen_first

choose-urgent_example : (urgent_job.urgent ≡ true) × (urgent_job.seq ≤ second_urgent.seq)
unfolding choose eligible eligible_rows is_eligible has_parent pick refresh_queue expire_overdue
    is_overdue cascade is_orphan fail_orphans select first exists update count execute state ◌>>=◌
choose-urgent_example =
    choose-urgent env urgent_store urgent_job second_urgent chosen_urgent
      ((omega arith, (omega arith, tt)), ((omega arith, tt), (tt, tt))) (inr (inr (inl refl))) refl

choose-oldest_example : (choose env patient_store).0 ≡ ok (some first_job)
unfolding choose eligible eligible_rows is_eligible has_parent pick refresh_queue expire_overdue
    is_overdue cascade is_orphan fail_orphans select first exists update count execute state ◌>>=◌
choose-oldest_example =
    choose-oldest env patient_store first_job ((refl, omega arith), tt)
      ((omega arith, tt), (tt, tt)) (inl refl) (inl (omega arith))

run_call-stale_example :
    run_call env 2 (dispatch_call "job_a" "attempt") store
    ≡ (err (scheduler "stale_controller" 409), store)
run_call-stale_example =
    run_call-stale env 2 (dispatch_call "job_a" "attempt") store (λ e. omega (arith, e))

acquire_controller-fences_example :
    run_call env 3 heartbeat_call (acquire_controller env store).1
    ≡ (err (scheduler "stale_controller" 409), (acquire_controller env store).1)
acquire_controller-fences_example =
    acquire_controller-fences env env store heartbeat_call 3 refl (omega arith)

acquire_controller-IsDoubted_example :
    ((acquire_controller env store).0 ≡ ok 4)
    × ((acquire_controller env store).1.controller.epoch ≡ 4)
    × IsDoubted (acquire_controller env store).1
    × (((acquire_controller env store).1.controller.phase ≡ unloaded)
        ⊎ ((acquire_controller env store).1.controller.phase ≡ Phase.unknown))
acquire_controller-IsDoubted_example = acquire_controller-IsDoubted env store refl

submit_known_example : submit env spec "key-a" "e" store ≡ (answer env spec first_job, store)
unfolding first full_match
submit_known_example = submit_known env spec "key-a" "e" store first_job refl refl refl refl refl

cancel_lem_example :
    ((cancel env "job_b" store).0 ≡ ok (public_job (canceled_row env urgent_job)))
    × (first (λ (j : Job). j.id == "job_b") (cancel env "job_b" store).1.jobs
        ≡ some (canceled_row env urgent_job))
unfolding first
cancel_lem_example = cancel_lem env "job_b" store urgent_job refl refl

none_chosen : (choose env quiet_store).0 ≡ ok none
unfolding choose eligible eligible_rows is_eligible has_parent pick refresh_queue expire_overdue
    is_overdue cascade is_orphan fail_orphans select first exists update count execute state ◌>>=◌
none_chosen = refl

choose-none_example : eligible_rows (choose env quiet_store).1.db ≡ []
choose-none_example = choose-none env quiet_store none_chosen

valid_wav-bounds_example :
    (46 ≤ length one_sample)
    × (length one_sample ≤ 960044)
    × (length one_sample % 2 ≡ 0)
    × (u32 one_sample 4 + 8 ≡ length one_sample)
    × (u32 one_sample 40 + 44 ≡ length one_sample)
unfolding valid_wav
valid_wav-bounds_example = valid_wav-bounds one_sample refl

chat-IsAnswered_example : IsAnswered tool_chat.messages
unfolding valid_role options_require_stream parts_like total has_duplicates exists delete
    after_messages after_message
chat-IsAnswered_example = chat-IsAnswered tool_chat (refl, (refl, (refl, tt))) refl
