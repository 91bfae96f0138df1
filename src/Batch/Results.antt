-- ===== src/Batch/Results.antt =====
-- The results of a job: _results, collect, import_results, result_files and result_file of the class
-- BatchStore of selfhost_models/batch.py, and what is read back.
use selfhost_models.Prelude.{
  ℕ, String, Bool, true, false, ◌||◌, ◌&&◌, not, Option, none, some, List, [], ◌∷◌, length, eqb,
  ◌==◌,
}
use selfhost_models.Sql.{first, exists, insert, total}
use selfhost_models.Action.{
  scheduler, integrity, pure, raise, lift, gets, modify, raise_if, ◌>>=◌, ◌>>◌,
}
use selfhost_models.Batch.{
  Env, Batches, Job, File, FileRow, Digest, Method, tx, capacity, files_of, manifest, job_row,
  save_job, is_available, is_fixture, is_succeeded, available,
}
use selfhost_models.Batch.Paths.{validate_files, safe_path}

abbrev pub content_bytes : List File → ℕ
content_bytes fs = total (λ (f : File). length f.content) fs

-- the primary key of result_files
unfoldable pub has_file : String → File → Batches → Bool
has_file owner f s =
    exists (λ (r : FileRow). r.owner == owner && r.file.path == f.path) s.result_files

-- INSERT INTO result_files
unfoldable pub add_file : String → File → Batches → Batches
add_file owner f s = record s {
  result_files = insert (record { owner = owner; file = f }) s.result_files;
}

unfoldable pub insert_files : String → List File → Method Unit
insert_files owner [] = pure tt
insert_files owner (f ∷ fs) = do
  taken ← gets (has_file owner f)
  raise_if taken integrity
  modify (add_file owner f)
  insert_files owner fs

-- the job with its results
unfoldable pub published : Env → List File → String → Job → Job
published env files provenance j = record j {
  result_state = available;
  results = manifest env files;
  result_provenance = some provenance;
}

-- _results
unfoldable pub put_results : Env → Job → List File → String → Method Job
put_results env j files provenance = do
  raise_if (is_available j.result_state) (scheduler "results_exist" 409)
  lift (validate_files env files)
  capacity (content_bytes files)
  insert_files j.id files
  save_job env "results_available" (published env files provenance j)

unfoldable pub collect_open : Env → Job → Bool → Method Job
collect_open env j true = pure j
collect_open env j false = put_results env j (env.fixture_files j) "offline_fixture"

unfoldable pub collect : Env → String → Method Job
collect env ident = tx do
  r ← job_row ident
  raise_if (not (is_fixture r.document.mode) || not (is_succeeded r.document.work_state))
      (scheduler "not_collectable" 409)
  collect_open env r.document (is_available r.document.result_state)

unfoldable pub import_results : Env → String → List ℕ → Method Job
import_results env ident archive = do
  files ← lift (env.read_archive archive)
  tx do r ← job_row ident; put_results env r.document files "manual_import"

-- manifest(files) == job["results"]
abbrev pub same_digests : List Digest → List Digest → Bool
same_digests [] [] = true
same_digests (x ∷ xs) (y ∷ ys) =
    x.path == y.path && (eqb x.size y.size && (x.sha256 == y.sha256 && same_digests xs ys))
same_digests _ _ = false

unfoldable pub result_files : Env → String → Method (List File)
result_files env ident = tx do
  r ← job_row ident
  raise_if (not (is_available r.document.result_state)) (scheduler "results_unavailable" 409)
  files ← gets (λ s. files_of env ident s.result_files)
  raise_if (not (same_digests (manifest env files) r.document.results))
      (scheduler "result_integrity" 409)
  pure files

unfoldable pub or_no_file : Option File → Method (List ℕ)
or_no_file none = raise (scheduler "not_found" 404)
or_no_file (some f) = pure f.content

unfoldable pub result_file : Env → String → String → Method (List ℕ)
result_file env ident path = do
  lift (safe_path env path)
  files ← result_files env ident
  or_no_file (first (λ f. f.path == path) files)
