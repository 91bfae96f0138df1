-- ===== src/Samples/BatchExamples.antt =====
-- The theorems on the batch store's jobs at concrete inputs.
use selfhost_models.Prelude.{◌≡◌, refl, [], ◌∷◌, arith}
use selfhost_models.Sql.{select, first, exists, total}
use selfhost_models.Action.{ok, err, scheduler, ◌>>=◌}
use selfhost_models.Protocol.Manifest.{split}
use selfhost_models.Batch.{
  JobRow, demo_intent, cancel, attempt, job_row, or_not_found, find_job, save_job, with_event,
}
use mathlib.Core.List.Permᴰ
use mathlib.Core.List.{Permᴰ, List}
use selfhost_models.Batch.{File, tx as batch_tx}
use selfhost_models.Batch.{Job, capacity, used_bytes, stored_files}
use selfhost_models.Batch.Paths.{
  validate_files, check_files, safe_path, is_hidden, is_credential, unsafe_part, private_key,
}
use selfhost_models.Batch.Reading.{import_results-result_files}
use selfhost_models.Batch.Results.{
  result_files, put_results, insert_files, has_file, add_file, published, import_results,
}
use selfhost_models.Batch.Steps.{
  IsTidy, Moved as Moved_jobs, after as after_batch, here as here_batch, next as next_batch,
  cancel_step, import_step,
}
use selfhost_models.Batch.Histories.{history-Moved}
use selfhost_models.Batch.Once.{demo_intent-once}
use selfhost_models.Samples.Remote.{batch_env, batches}

batches-IsTidy : IsTidy batches
batches-IsTidy = record {
  ids = (tt, tt);
  rows = (
    record {
      named = refl;
      sane = record { attempts = omega arith; unattempted = λ e. refl; bounded = omega arith };
    },
    tt,
  );
}

first_attempt : (x : JobRow) × ((demo_intent batch_env "batch_1" batches).0 ≡ ok x)
unfolding demo_intent attempt job_row or_not_found find_job save_job with_event first batch_tx ◌>>=◌
first_attempt = (_, refl)

demo_intent-once_example :
    demo_intent batch_env "batch_1" (
      after_batch
        (cancel batch_env "batch_1")
        (after_batch (demo_intent batch_env "batch_1") batches))
    ≡ (
      err (scheduler "no_retry" 409),
      after_batch
          (cancel batch_env "batch_1")
          (after_batch (demo_intent batch_env "batch_1") batches),
    )
demo_intent-once_example =
    demo_intent-once batch_env "batch_1" first_attempt.0 batches _ batches-IsTidy first_attempt.1
      (next_batch here_batch (cancel_step "batch_1"))

history-Moved_example :
    Moved_jobs batches (after_batch (import_results batch_env "batch_1" (1 ∷ [])) batches)
history-Moved_example =
    history-Moved batch_env (next_batch here_batch (import_step "batch_1" (1 ∷ []))) batches-IsTidy

first_import : (x : Job) × ((import_results batch_env "batch_1" (7 ∷ []) batches).0 ≡ ok x)
unfolding import_results put_results insert_files has_file add_file published capacity used_bytes
    total validate_files check_files safe_path is_hidden is_credential unsafe_part private_key split
    job_row or_not_found find_job save_job with_event first exists batch_tx ◌>>=◌
first_import = (_, refl)

abbrev imported : File
imported = record { path = "a.txt"; content = 7 ∷ [] }

import_results-result_files_example :
    (read : List File) × Permᴰ read (imported ∷ [])
    × (result_files batch_env "batch_1"
          (after_batch (import_results batch_env "batch_1" (7 ∷ [])) batches)
        ≡ (ok read, after_batch (import_results batch_env "batch_1" (7 ∷ [])) batches))
unfolding stored_files select
import_results-result_files_example =
    import_results-result_files batch_env "batch_1" (7 ∷ []) (imported ∷ []) first_import.0 batches
      batches-IsTidy refl refl (Permᴰ.refl (imported ∷ [])) refl first_import.1
