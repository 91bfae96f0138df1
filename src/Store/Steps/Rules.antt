-- ===== src/Store/Steps/Rules.antt =====
-- What it takes for a relation between states to hold across every step: it is a preorder, it
-- survives a rollback, and it holds across each kind of statement. The rest of the database and
-- the files, which these relations do not look at, may change in any way.
use selfhost_models.Prelude.{
  ℕ, ◌+◌, ◌≡◌, String, Bool, true, false, Option, none, List, leb, ltb, length, ◌||◌, ◌==◌,
}
use selfhost_models.Sql.{exists, count}
use selfhost_models.Sql.Members.{In}
use selfhost_models.Action.Keeps.{IsPreorder}
use selfhost_models.Tables.{
  Db, Job, JobState, Attempt, Lease, Dependency, Window, Grant, Phase, Registered, Garbage,
  is_queued,
}
use selfhost_models.Store.Base.{World, Env, Receipt}
use selfhost_models.Store.Control.{fail_queued, lose_inflight, take_over, clear_leases}
use selfhost_models.Store.Budget.{window_allows, window_taken, spend_load, add_window, close_window}
use selfhost_models.Store.Queue.{refresh_queue, cancel_update}
use selfhost_models.Store.Dispatch.{
  fail_job, spend_generation, start_job, add_attempt, move_attempt, doubt_leases, add_lease,
  release_lease, detach_lease, doubt_orphaned,
}
use selfhost_models.Store.Submission.{add_job, add_dependency}
use selfhost_models.Store.Receipts.{
  add_receipt, find_receipt, record_terminal, mark_available, mark_storage_failed, release_granted,
}
use selfhost_models.Store.Collection.{remove_job, unlink}

-- The state after a statement.
abbrev pub on : World → (Db → Db) → World
on w f = record w { db = f w.db }

-- What the relations look at.
pub record Core : Type 0 where
  pub loads : ℕ
  pub generations : ℕ
  pub windows : List Window
  pub jobs : List Job
  pub job_seq : ℕ
  pub dependencies : List Dependency
  pub attempts : List Attempt
  pub leases : List Lease
  pub deployments : List Registered
  pub receipts : List Receipt

abbrev pub core : World → Core
core w = record {
  loads = w.loads;
  generations = w.generations;
  windows = w.windows;
  jobs = w.jobs;
  job_seq = w.job_seq;
  dependencies = w.dependencies;
  attempts = w.attempts;
  leases = w.leases;
  deployments = w.deployments;
  receipts = w.receipt_files;
}

pub record Rules (env : Env) (R : World → World → Type 0) : Type 0 where
  pub order : IsPreorder R
  pub rollback : (s t : World) → R s t → R s (record t { db = s.db })
  pub quiet : (s t : World) → core t ≡ core s → R s t
  pub fail_queued_rule :
      (s : World) (e : String) (p : Job → Bool) → R s (on s (fail_queued env e p))
  pub lose_inflight_rule : (s : World) (e : String) → R s (on s (lose_inflight e))
  pub take_over_rule : (s : World) (n : ℕ) (p : Phase) → R s (on s (take_over env n p))
  pub clear_leases_rule : (s : World) → R s (on s clear_leases)
  pub spend_load_rule :
      (s : World) (n : ℕ)
      → leb env.config.max_load_attempts s.loads ≡ false
      → ltb env.config.max_generation_attempts (s.generations + n) ≡ false
      → window_allows 1 n s ≡ true
      → R s (on s (spend_load n))
  pub spend_generation_rule :
      (s : World)
      → leb env.config.max_generation_attempts s.generations ≡ false
      → window_allows 0 1 s ≡ true
      → R s (on s spend_generation)
  pub add_window_rule :
      (s : World) (name : String) (l g : ℕ)
      → window_taken name s ≡ false
      → R s (on s (add_window env name l g))
  pub close_window_rule : (s : World) (name : String) → R s (on s (close_window env name))
  pub refresh_queue_rule : (s : World) → R s (on s (refresh_queue env.clock))
  pub cancel_rule : (s : World) (j : Job) → R s (on s (cancel_update env j))
  pub fail_job_rule : (s : World) (e id : String) → R s (on s (fail_job env e id))
  pub add_attempt_rule :
      (s : World) (a : Attempt)
      → exists (λ (x : Attempt). x.id == a.id || x.job == a.job) s.attempts ≡ false
      → R s (on s (add_attempt a))
  pub add_lease_rule :
      (s : World) (l : Lease) (r : Registered)
      → exists (λ (x : Lease). x.id == l.id) s.leases ≡ false
      → In r s.deployments
      → leb r.spec.load.capacity (length s.leases) ≡ false
      → R s (on s (add_lease l))
  pub start_job_rule : (s : World) (a j : String) → R s (on s (start_job a j))
  pub move_attempt_rule :
      (s : World) (a : String) (to : JobState) (e : Option String)
      → R s (on s (move_attempt a to e))
  pub doubt_leases_rule :
      (s : World) (p : Lease → Bool) (worker : String) → R s (on s (doubt_leases p worker))
  pub release_lease_rule : (s : World) (r e o : String) → R s (on s (release_lease r e o))
  pub detach_lease_rule : (s : World) (r o : String) → R s (on s (detach_lease r o))
  pub doubt_orphaned_rule : (s : World) (o : String) → R s (on s (doubt_orphaned o))
  pub release_granted_rule : (s : World) (a : String) (g : Grant) → R s (on s (release_granted a g))
  pub add_job_rule :
      (s : World) (j : Job)
      → j.seq ≡ s.job_seq + 1
      → exists (λ (x : Job). x.id == j.id || x.idem == j.idem) s.jobs ≡ false
      → ltb (length s.jobs) env.config.retained_jobs ≡ true
      → ltb (count (λ x. is_queued x.state) s.jobs) env.config.queue_capacity ≡ true
      → R s (on s (add_job j))
  pub add_dependency_rule : (s : World) (j p : String) → R s (on s (add_dependency j p))
  pub add_receipt_rule :
      (s : World) (r : Receipt) → find_receipt r.attempt s ≡ none → R s (add_receipt r s)
  pub record_terminal_rule :
      (s : World) (a : Attempt) (j : Job) (r : Receipt) → R s (on s (record_terminal a j r))
  pub mark_available_rule :
      (s : World) (ref jid : String) (n : ℕ) → R s (on s (mark_available ref n jid))
  pub mark_storage_failed_rule : (s : World) (a : String) → R s (on s (mark_storage_failed a))
  pub remove_job_rule : (s : World) (j : Job) → R s (on s (remove_job j))
  pub unlink_rule : (s : World) (g : Garbage) → R s (unlink g s)
