-- ===== src/Samples/RemoteExamples.antt =====
-- The theorems on the executor and its journal, the protocol and the controller's table at concrete
-- inputs.
use selfhost_models.Prelude.{
  ◌+◌, ◌≤◌, ◌≡◌, refl, true, false, none, some, [], ◌∷◌, arith, ◌↔◌, length,
}
use selfhost_models.Sql.{first, exists, total}
use selfhost_models.Sql.Laws.{All}
use selfhost_models.Action.{ok, err, scheduler, ◌>>=◌}
use selfhost_models.Protocol.{retire, valid_command, valid_execution, grant_matches}
use selfhost_models.Protocol.Grants.{IsGranted, valid_execute-IsGranted}
use selfhost_models.Protocol.Manifest.{split, validate_manifest, check_entries, bad_name, bad_entry}
use selfhost_models.Protocol.Manifest.Names.{IsInside, validate_manifest-IsInside}
use selfhost_models.Journal.{Journal, terminal, find_command, CommandRow, tx}
use selfhost_models.Journal.Engines.{recover, fence, engine, exit_proof, set_engine, keep_exit}
use selfhost_models.Journal.Commands.{
  accept, try_executing, executing_row, executing_accepted, begin, set_state, finish, receipt_of,
}
use selfhost_models.Journal.Engines.{has_exit, put_engine, put_exit}
use selfhost_models.Journal.Commands.{accept_new, unregistered, is_full, reserved, admit_kind}
use selfhost_models.Journal.Steps.{after, here, next, recover_step, fence_step}
use selfhost_models.Journal.Steps.Rules.{IsSound, Moved}
use selfhost_models.Journal.Steps.Histories.{Reach-Moved}
use selfhost_models.Journal.Once.{executing-once}
use selfhost_models.Journal.Acceptance.{accept-once}
use selfhost_models.Journal.Restart.{IsIdle, recover-IsIdle}
use selfhost_models.Journal.Endings.{Sealed, terminal-Sealed, finish_ended}
use selfhost_models.Executor.{retired, engine_exited, confirm_exit, ask_exit, record_exit, needed}
use selfhost_models.Executor.Operations.{
  operation, operation_kind, with_engine, on_engine, operation_retire,
}
use selfhost_models.Executor.Exits.{IsEnded, ending_retire, operation-IsEnded}
use selfhost_models.Retention.{persist, logical_bytes, reserved_bytes}
use selfhost_models.Retention.Steps.{
  after as after_call, here as here_call, next as next_call, at_time, IsBounded, persist_step,
}
use selfhost_models.Retention.Histories.{Reach-IsBounded}
use selfhost_models.Retention.Collecting.{view, retained_bytes-usage}
use selfhost_models.Tables.{GrantRow, api_process, legacy}
use selfhost_models.Store.Grants.{retained_bytes}
use selfhost_models.Samples.Data.{store}
use selfhost_models.Samples.Remote.{
  journal_env, command_1, command_of, release_1, one_file, engine_1, row_1, receipt_1, ended_row,
  journal_of, runtime, retention_env, limits, outbox, cleared_1,
}

fresh_journal-IsSound : IsSound journal_env []
fresh_journal-IsSound = record { ids = tt; few = omega arith; shaped = tt }

waiting-IsSound : IsSound journal_env (row_1 ∷ [])
waiting-IsSound = record {
  ids = (tt, tt);
  few = omega arith;
  shaped =
      (record { whole_until = λ e. (command_1, refl); sealed = λ e. absurd (ground arith) }, tt);
}

ended-IsSound : IsSound journal_env (ended_row ∷ [])
ended-IsSound = record {
  ids = (tt, tt);
  few = omega arith;
  shaped =
      (record { whole_until = λ e. (command_1, refl); sealed = λ e. (receipt_1, refl, refl) }, tt);
}

abbrev waiting : Journal
waiting = journal_of (row_1 ∷ []) (some engine_1)

abbrev ended : Journal
ended = journal_of (ended_row ∷ []) none

-- the journal before the command
abbrev fresh : Journal
fresh = journal_of [] none

started : (try_executing command_1.id waiting).0 ≡ ok true
unfolding try_executing executing_row executing_accepted begin set_state find_command first tx ◌>>=◌
started = refl

executing-once_example :
    try_executing command_1.id (after recover (after (try_executing command_1.id) waiting))
    ≡ (ok false, after recover (after (try_executing command_1.id) waiting))
executing-once_example =
    executing-once journal_env command_1.id waiting _ waiting-IsSound started
      (next here recover_step)

accepted_first : (accept journal_env 7 release_1 fresh).0 ≡ ok true
unfolding accept accept_new unregistered is_full reserved admit_kind find_command first total tx
    ◌>>=◌
accepted_first = refl

accept-once_example :
    accept journal_env 8 release_1 (after recover (after (accept journal_env 7 release_1) fresh))
    ≡ (ok false, after recover (after (accept journal_env 7 release_1) fresh))
accept-once_example =
    accept-once journal_env 7 8 release_1 release_1 fresh _ fresh_journal-IsSound accepted_first
      (next here recover_step) refl refl refl

Reach-Moved_example :
    Moved journal_env waiting (after (fence journal_env "control-1" "executor-1" 2) waiting)
Reach-Moved_example =
    Reach-Moved journal_env (next here (fence_step "control-1" "executor-1" 2)) waiting-IsSound

terminal-Sealed_example :
    (y : CommandRow) × (find_command command_1.id (after recover ended) ≡ some y)
    × Sealed ended_row y
unfolding find_command first
terminal-Sealed_example =
    terminal-Sealed journal_env command_1.id ended_row ended (after recover ended) ended-IsSound
      refl refl (next here recover_step)

finish_ended_example :
    finish journal_env 20 command_1 "other" none terminal ended
    ≡ (err (scheduler "receipt_conflict" 409), ended)
unfolding find_command first receipt_of
finish_ended_example =
    finish_ended journal_env 20 command_1 "other" none terminal ended_row ended refl (omega arith)
      refl

recover-IsIdle_example :
    IsIdle (after recover waiting)
    × (try_executing command_1.id (after recover waiting) ≡ (ok false, after recover waiting))
recover-IsIdle_example = recover-IsIdle command_1.id waiting

retired_first : (operation journal_env runtime (command_of retire) waiting).0 ≡ ok retired
unfolding operation operation_kind with_engine on_engine operation_retire engine_exited confirm_exit
    ask_exit record_exit needed engine exit_proof set_engine keep_exit has_exit put_engine put_exit
    first exists tx ◌>>=◌
retired_first = refl

operation-IsEnded_example : IsEnded journal_env runtime waiting (command_of retire)
operation-IsEnded_example =
    operation-IsEnded journal_env runtime (command_of retire) waiting retired ending_retire
      retired_first

valid_command_1 : valid_command (λ d. "dep") command_1 ≡ ok tt
unfolding valid_command valid_execution grant_matches
valid_command_1 = refl

valid_execute-IsGranted_example :
    (valid_command (λ d. "dep") command_1 ≡ ok tt)
    ↔ ((g : _) × (p : _) × (d : _) × IsGranted (λ d. "dep") command_1 g p d)
valid_execute-IsGranted_example = valid_execute-IsGranted (λ d. "dep") command_1 refl

one_file_valid : validate_manifest (λ m. "0") (λ m. 100) one_file ≡ ok "asset_0"
unfolding validate_manifest check_entries bad_name bad_entry split exists
one_file_valid = refl

validate_manifest-IsInside_example :
    (length one_file ≤ 10000) × (100 ≤ 2097152) × All IsInside one_file
validate_manifest-IsInside_example =
    validate_manifest-IsInside (λ m. "0") (λ m. 100) one_file "asset_0" one_file_valid

Reach-IsBounded_example :
    IsBounded retention_env limits
      (after_call (persist (at_time retention_env 3) limits command_1) outbox)
unfolding total
Reach-IsBounded_example =
    Reach-IsBounded retention_env limits (λ x y e. e)
      (next_call here_call (persist_step 3 command_1))
      (record { ids = tt; few = omega arith; fits = omega arith; good = tt })

-- the store's own row of the grant
abbrev grant_row : GrantRow
grant_row = record {
  attempt = command_1.id;
  envelope = record {
    authority = "control-1";
    executor = "executor-1";
    fence = 1;
    handle = some "selfhost-scheduler-a";
    deployment = some "dep";
    worker_epoch = some "worker";
    attempt = command_1.id;
    owner = api_process "api";
    kind = legacy;
    started = 1;
    execution_limit = 600;
  };
  receipt = some "{}";
  acked = true;
}

retained_bytes-usage_example :
    retained_bytes (record store {
      db = record store.db { retained = view retention_env cleared_1 ∷ []; grants = [] };
    })
    ≡ logical_bytes retention_env (record outbox { rows = cleared_1 ∷ [] })
      + reserved_bytes (record outbox { rows = cleared_1 ∷ [] })
retained_bytes-usage_example =
    retained_bytes-usage retention_env (record outbox { rows = cleared_1 ∷ [] })
      (record store {
        db = record store.db { retained = view retention_env cleared_1 ∷ []; grants = [] };
      })
      refl refl
