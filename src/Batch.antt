-- ===== src/Batch.antt =====
-- The batch store's jobs: the tables of the class BatchStore of selfhost_models/batch.py, and _job,
-- _save_job, _capacity, submit, demo, cancel, demo_confirm, _results, collect, import_results,
-- result_files and result_file. The texts that are only shown are left out; a BatchError is its
-- code and status.
pub mod Paths
pub mod Steps
pub mod Attempts
pub mod Histories
pub mod Once
pub mod Reading
pub mod Results
use selfhost_models.Prelude.{
  ℕ, zero, suc, ◌+◌, ◌-◌, String, Bool, true, false, ◌&&◌, ◌||◌, not, Option, none, some, List, [],
  ◌∷◌, ◌++◌, length, map, ltb, eqb, ◌==◌, if◌then◌else◌,
}
use selfhost_models.Sql.{select, first, exists, update, insert, total}
use selfhost_models.Action.{
  Action, Result, ok, err, scheduler, integrity, pure, raise, lift, gets, modify, raise_if, ◌>>=◌,
  ◌>>◌,
}

pub data WorkState : Type 0 where
  prepared unknown running succeeded failed canceled : WorkState

pub data ResultState : Type 0 where
  no_results pending available : ResultState

pub data Mode : Type 0 where
  prepared_mode offline_fixture : Mode

-- a file by its path and its bytes
pub record File : Type 0 where
  pub path : String
  pub content : List ℕ

-- an entry of manifest(files)
pub record Digest : Type 0 where
  pub path : String
  pub size : ℕ
  pub sha256 : String

pub record Event : Type 0 where
  pub at : ℕ
  pub kind : String

pub record Fixture : Type 0 where
  pub package_sha256 : String
  pub transfer_bytes : ℕ

-- the document jobs.record, in what the later operations read or change
pub record Job : Type 0 where
  pub id : String
  pub work_state : WorkState
  pub result_state : ResultState
  pub mode : Mode
  pub cancel_requested : Bool
  pub attempt_count : ℕ
  pub events : List Event
  pub results : List Digest
  pub result_provenance : Option String
  pub fixture : Option Fixture

-- jobs(id, draft_id, revision, record, package)
pub record JobRow : Type 0 where
  pub id : String
  pub draft_id : String
  pub revision : ℕ
  pub document : Job
  pub archive : List ℕ

-- draft_files and result_files, by the draft's or the job's id
pub record FileRow : Type 0 where
  pub owner : String
  pub file : File

pub record Batches : Type 0 where
  pub draft_files : List FileRow
  pub jobs : List JobRow
  pub result_files : List FileRow
  pub project_bytes : ℕ

-- The clock, hashlib, the unicode and zip libraries, and the files that a collection makes.
pub record Env : Type 0 where
  pub clock : ℕ
  pub sha256 : List ℕ → String
  pub encode : String → List ℕ
  pub nfc : String → String
  pub is_format : ℕ → Bool
  pub casefold : String → String
  pub casefold_part : List ℕ → String
  pub utf8_bytes : List ℕ → ℕ
  pub sorted : List File → List File
  pub scan : List File → List File
  pub read_archive : List ℕ → Result (List File)
  pub contains : List ℕ → List ℕ → Bool
  pub fixture_files : Job → List File

abbrev pub Method : Type 0 → Type 0
Method A = Action Batches A

abbrev pub finish_tx : {A : Type 0} → Batches → Result A × Batches → Result A × Batches
finish_tx before (ok a, after) = (ok a, after)
finish_tx before (err e, after) = (err e, before)

-- with self.connection() as db: ...
unfoldable pub tx : {A : Type 0} → Method A → Method A
tx body s = finish_tx s (body s)

abbrev pub file_bytes : List FileRow → ℕ
file_bytes rs = total (λ (r : FileRow). length r.file.content) rs

unfoldable pub used_bytes : Batches → ℕ
used_bytes s =
    file_bytes s.draft_files
    + total (λ (r : JobRow). length r.archive) s.jobs
    + file_bytes s.result_files
    + s.project_bytes

-- _capacity
unfoldable pub capacity : ℕ → Method Unit
capacity extra = do
  full ← gets (λ s. ltb 268435456 (used_bytes s + extra))
  raise_if full (scheduler "state_full" 409)

-- the files of an owner, as they were inserted
unfoldable pub stored_files : String → List FileRow → List File
stored_files owner rs = map (λ (r : FileRow). r.file) (select (λ r. r.owner == owner) rs)

-- _files: its SELECT has no ORDER BY, and SQLite returns the rows in the order that it chooses.
abbrev pub files_of : Env → String → List FileRow → List File
files_of env owner rs = env.scan (stored_files owner rs)

-- manifest(files)
unfoldable pub manifest : Env → List File → List Digest
manifest env files =
    map
      (λ (f : File). record {
        path = f.path;
        size = length f.content;
        sha256 = env.sha256 f.content;
      })
      (env.sorted files)

unfoldable pub find_job : String → Batches → Option JobRow
find_job ident s = first (λ r. r.id == ident) s.jobs

unfoldable pub or_not_found : Option JobRow → Method JobRow
or_not_found none = raise (scheduler "not_found" 404)
or_not_found (some r) = pure r

-- _job, with the row's package
unfoldable pub job_row : String → Method JobRow
job_row ident = do found ← gets (find_job ident); or_not_found found

-- xs[-n:]
abbrev pub drop : ℕ → List Event → List Event
drop zero xs = xs
drop (suc n) [] = []
drop (suc n) (x ∷ xs) = drop n xs

unfoldable pub last_100 : List Event → List Event
last_100 xs = drop (length xs - 100) xs

-- the job with one more event
unfoldable pub with_event : Env → String → Job → Job
with_event env kind j = record j {
  events = last_100 (j.events ++ record { at = env.clock; kind = kind } ∷ []);
}

-- UPDATE jobs SET record=? WHERE id=?
unfoldable pub put_job : Job → Batches → Batches
put_job j s = record s { jobs = update (λ r. r.id == j.id) (λ r. record r { document = j }) s.jobs }

-- _save_job
unfoldable pub save_job : Env → String → Job → Method Job
save_job env kind j = do modify (put_job (with_event env kind j)); pure (with_event env kind j)

unfoldable pub submit : String → Method Unit
submit ident = do tx (job_row ident); raise (scheduler "live_disabled" 403)

abbrev pub is_prepared : WorkState → Bool
is_prepared prepared = true
is_prepared _ = false

abbrev pub is_unknown : WorkState → Bool
is_unknown unknown = true
is_unknown _ = false

-- work_state in ("unknown", "running")
abbrev pub is_unconfirmed : WorkState → Bool
is_unconfirmed unknown = true
is_unconfirmed running = true
is_unconfirmed _ = false

-- work_state in ("succeeded", "failed", "canceled")
abbrev pub is_over : WorkState → Bool
is_over succeeded = true
is_over failed = true
is_over canceled = true
is_over _ = false

abbrev pub is_succeeded : WorkState → Bool
is_succeeded succeeded = true
is_succeeded _ = false

abbrev pub is_available : ResultState → Bool
is_available available = true
is_available _ = false

abbrev pub is_fixture : Mode → Bool
is_fixture offline_fixture = true
is_fixture prepared_mode = false

pub data Scenario : Type 0 where
  demo_success demo_unknown demo_cancel : Scenario

-- the job with the intent of its one attempt
unfoldable pub intended : Env → List ℕ → Job → Job
intended env archive j = record j {
  mode = offline_fixture;
  attempt_count = 1;
  work_state = unknown;
  fixture = some (record { package_sha256 = env.sha256 archive; transfer_bytes = length archive });
}

-- The part of demo's first transaction behind the search for the job.
unfoldable pub attempt : Env → JobRow → Method JobRow
attempt env r = do
  raise_if (not (is_prepared r.document.work_state) || not (eqb r.document.attempt_count 0))
      (scheduler "no_retry" 409)
  save_job env "demo_intent" (intended env r.archive r.document)
  pure r

-- The first transaction of demo.
unfoldable pub demo_intent : Env → String → Method JobRow
demo_intent env ident = tx do r ← job_row ident; attempt env r

abbrev pub settled_results : ResultState → ResultState
settled_results available = available
settled_results _ = pending

unfoldable pub settled : Scenario → Job → Job
settled demo_success j = record j {
  work_state = succeeded;
  result_state = settled_results j.result_state;
}
settled demo_cancel j = record j { work_state = running; cancel_requested = true }
settled demo_unknown j = j

abbrev scenario_kind : Scenario → String
scenario_kind demo_success = "demo_success"
scenario_kind demo_unknown = "demo_unknown"
scenario_kind demo_cancel = "demo_cancel"

unfoldable pub settle_unknown : Env → Scenario → Job → Bool → Method Job
settle_unknown env scenario j false = pure j
settle_unknown env scenario j true = save_job env (scenario_kind scenario) (settled scenario j)

-- The second transaction of demo.
unfoldable pub demo_settle : Env → String → Scenario → Method Job
demo_settle env ident scenario =
    tx do
      r ← job_row ident
      settle_unknown env scenario r.document (is_unknown r.document.work_state)

-- Between the two the code compares the digest of the package with that of a copy.
unfoldable pub demo : Env → String → Scenario → Method Job
demo env ident scenario = do demo_intent env ident; demo_settle env ident scenario

unfoldable pub canceled_job : Job → Job
canceled_job j = record j {
  cancel_requested = true;
  work_state = if is_prepared j.work_state then canceled else j.work_state;
}

unfoldable pub cancel_open : Env → Job → Bool → Method Job
cancel_open env j true = pure j
cancel_open env j false = save_job env "cancel_requested" (canceled_job j)

unfoldable pub cancel : Env → String → Method Job
cancel env ident = tx do
  r ← job_row ident
  cancel_open env r.document (r.document.cancel_requested || is_over r.document.work_state)

-- outcome in ("succeeded", "canceled", "failed")
pub data Outcome : Type 0 where
  confirm_succeeded confirm_canceled confirm_failed : Outcome

unfoldable pub confirmed : Outcome → Job → Job
confirmed confirm_succeeded j = record j {
  work_state = succeeded;
  result_state = settled_results j.result_state;
}
confirmed confirm_canceled j = record j { work_state = canceled }
confirmed confirm_failed j = record j { work_state = failed }

unfoldable pub demo_confirm : Env → String → Outcome → Method Job
demo_confirm env ident outcome = tx do
  r ← job_row ident
  raise_if (not (is_fixture r.document.mode) || not (is_unconfirmed r.document.work_state))
      (scheduler "not_pending" 409)
  save_job env "demo_terminal" (confirmed outcome r.document)
