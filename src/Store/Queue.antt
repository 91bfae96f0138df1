-- ===== src/Store/Queue.antt =====
-- The queue: refresh_queue, eligible, choose, next_job, cancel, job and jobs of
-- selfhost_models/scheduler_store.py.
pub mod Rounds
pub mod Orphans
pub mod Refresh
pub mod Choice
pub mod Cancellation
use selfhost_models.Prelude.{
  ℕ, zero, suc, ◌+◌, String, Bool, true, false, ◌&&◌, ◌||◌, not, Option, none, some, List, [], ◌∷◌,
  map, same, leb, ltb, eqb, take, ◌==◌, if◌then◌else◌,
}
use selfhost_models.Sql.{select, first, exists, update, count}
use selfhost_models.Action.{scheduler, pure, raise, gets, raise_if, ◌>>=◌, ◌>>◌}
use selfhost_models.Schema.Deployment.{in_range}
use selfhost_models.Tables.{
  Db, Job, PublicJob, Dependency, Controller, canceled, expired, dependency_failed, is_queued,
  is_active, is_succeeded, is_dead, is_available,
}
use selfhost_models.Store.Base.{World, Env, Method, execute, tx, event, state, fenced}

-- SET state='expired',... WHERE state='queued' AND deadline<=now
unfoldable pub is_overdue : ℕ → Job → Bool
is_overdue now j = is_queued j.state && leb j.deadline now

abbrev pub expire : ℕ → Job → Job
expire now j = record j {
  state = expired;
  error = some "queue_deadline";
  ended = some now;
  reservation = 0;
}

unfoldable pub expire_overdue : ℕ → Db → Db
expire_overdue now d = record d { jobs = update (is_overdue now) (expire now) d.jobs }

-- A job depends on a job that a test accepts.
unfoldable pub has_parent : (Job → Bool) → Db → Job → Bool
has_parent p d j =
    exists (λ e. e.job == j.id && exists (λ q. q.id == e.parent && p q) d.jobs) d.dependencies

-- WHERE state='queued' AND id IN (SELECT d.job ... WHERE p.state IN ('failed',...))
unfoldable pub is_orphan : Db → Job → Bool
is_orphan d j = is_queued j.state && has_parent (λ q. is_dead q.state) d j

abbrev pub fail_dependency : ℕ → Job → Job
fail_dependency now j = record j {
  state = dependency_failed;
  error = some "dependency_failed";
  ended = some now;
  reservation = 0;
}

unfoldable pub fail_orphans : ℕ → Db → Db
fail_orphans now d = record d { jobs = update (is_orphan d) (fail_dependency now) d.jobs }

-- The `while True` loop: it ends when an UPDATE changed no row.
unfoldable pub cascade : ℕ → ℕ → Db → Db
cascade zero now d = d
cascade (suc fuel) now d = elim (eqb (count (is_orphan d) d.jobs) 0) [
  | true ↦ d
  | false ↦ cascade fuel now (fail_orphans now d)
]

-- Each round but the last takes a job out of the queue, so this many rounds are enough.
unfoldable pub refresh_queue : ℕ → Db → Db
refresh_queue now d =
    let e = expire_overdue now d in cascade (suc (count (λ j. is_queued j.state) e.jobs)) now e

-- p.state!='succeeded' OR p.result_state!='available'
abbrev pub is_unfinished : Job → Bool
is_unfinished q = not (is_succeeded q.state) || not (is_available q.result_state)

-- WHERE j.state='queued' AND NOT EXISTS (...)
unfoldable pub is_eligible : Db → Job → Bool
is_eligible d j = is_queued j.state && not (has_parent is_unfinished d j)

-- The eligible rows, ORDER BY seq, which is the order of the table.
unfoldable pub eligible_rows : Db → List Job
eligible_rows d = select (is_eligible d) d.jobs

unfoldable pub eligible : Env → Method (List Job)
eligible env = do execute (refresh_queue env.clock); gets (λ w. eligible_rows w.db)

abbrev pub get_or : Option Job → Job → Job
get_or none d = d
get_or (some j) d = j

-- The choice among the eligible rows: urgent first; the oldest, if it has aged or the loaded
-- deployment has been used often enough; else one for the loaded deployment.
unfoldable pub pick : Env → Controller → List Job → Option Job
pick env s [] = none
pick env s (r ∷ rest) = elim (first (λ j. j.urgent) (r ∷ rest)) [
  | some u ↦ some u
  | none ↦ some (
      if leb (r.created + env.config.aging_seconds) env.clock
        || leb env.config.reuse_dispatches s.reuse_count
      then r
      else get_or (first (λ j. same (some j.deployment) s.deployment) (r ∷ rest)) r)
]

unfoldable pub choose : Env → Method (Option Job)
choose env = do rows ← eligible env; s ← state; pure (pick env s rows)

unfoldable pub next_job : Env → ℕ → Method (Option Job)
next_job env epoch = tx env do fenced epoch; choose env

unfoldable pub public_job : Job → PublicJob
public_job r = record {
  id = r.id;
  seq = r.seq;
  deployment = r.deployment;
  urgent = r.urgent;
  created = r.created;
  deadline = r.deadline;
  state = r.state;
  cancel_requested = r.cancel_requested;
  error = r.error;
  result_state = r.result_state;
  result_ref = r.result_ref;
  result_description = r.result_description;
  attempt = r.attempt;
  ended = r.ended;
}

unfoldable pub or_job_not_found : Option Job → Method Job
or_job_not_found none = raise (scheduler "job_not_found" 404)
or_job_not_found (some r) = pure r

-- SELECT * FROM jobs WHERE id=?, or job_not_found
unfoldable pub require_job : String → Method Job
require_job jid = do found ← gets (λ w. first (λ j. j.id == jid) w.jobs); or_job_not_found found

unfoldable pub job : String → Method PublicJob
job jid = do r ← require_job jid; pure (public_job r)

unfoldable pub jobs : ℕ → ℕ → Method (List PublicJob)
jobs after limit = do
  raise_if (not (in_range 1 100 limit)) (scheduler "invalid_pagination" 400)
  gets (λ w. map public_job (take limit (select (λ j. ltb after j.seq) w.jobs)))

abbrev pub cancel_queued : Env → Job → Job
cancel_queued env j = record j {
  state = canceled;
  cancel_requested = true;
  ended = some env.clock;
  reservation = 0;
}

-- The UPDATE that a cancellation makes, by the state that was read.
unfoldable pub cancel_update : Env → Job → Db → Db
cancel_update env r d = record d {
  jobs =
      if is_queued r.state
      then update (λ j. j.id == r.id) (cancel_queued env) d.jobs
      else if is_active r.state
      then update (λ j. j.id == r.id) (λ j. record j { cancel_requested = true }) d.jobs
      else d.jobs;
}

unfoldable pub cancel : Env → String → Method PublicJob
cancel env jid = do
  tx env do
    r ← require_job jid
    execute (cancel_update env r)
    execute (event env "cancel_requested" (some jid) [])
  job jid
