-- ===== src/Store/Collection.antt =====
-- Retention: collect and sweep of selfhost_models/scheduler_store.py.
pub mod Retention
use selfhost_models.Prelude.{
  ℕ, ◌+◌, String, Bool, true, false, ◌&&◌, ◌||◌, not, Option, none, some, List, [], ◌∷◌, length,
  is_some, ltb, ◌==◌, if◌then◌else◌,
}
use selfhost_models.Sql.{select, exists, delete, insert_or_ignore}
use selfhost_models.Action.{scheduler, pure, gets, raise_if, modify, when, ◌>>=◌, ◌>>◌}
use selfhost_models.Schema.Text.{hex_ref}
use selfhost_models.Tables.{
  Db, Job, Attempt, Artifact, Garbage, ResultState, no_result, available, is_final, Registered,
}
use selfhost_models.Store.Base.{World, Env, Method, ArtifactFile, execute, fault, tx}
use selfhost_models.Store.Grants.{can_collect_attempt}

-- result_state IN ('none','available')
abbrev pub is_settled : ResultState → Bool
is_settled no_result = true
is_settled available = true
is_settled _ = false

-- time < clock - retention_seconds
abbrev pub is_old : Env → ℕ → Bool
is_old env t = ltb (t + env.config.retention_seconds) env.clock

abbrev pub ended_long_ago : Env → Option ℕ → Bool
ended_long_ago env none = false
ended_long_ago env (some t) = is_old env t

unfoldable pub attempt_collectable : World → Option String → Bool
attempt_collectable w none = true
attempt_collectable w (some a) = if a == "" then true else can_collect_attempt a w

-- The jobs that a collection may remove.
unfoldable pub is_collectable : Env → World → Job → Bool
is_collectable env w j =
    ended_long_ago env j.ended
    && (is_final j.state
        && (is_settled j.result_state
            && (not (exists (λ e. e.parent == j.id) w.dependencies)
                && attempt_collectable w j.attempt)))

-- INSERT OR IGNORE INTO garbage
unfoldable pub discard : String → String → Db → Db
discard kind ref d = record d {
  garbage =
      insert_or_ignore (λ g. g.kind == kind && g.ref == ref) (record { kind = kind; ref = ref })
        d.garbage;
}

unfoldable pub discard_receipt : Option String → Db → Db
discard_receipt none d = record d { garbage = d.garbage }
discard_receipt (some a) d = record d {
  garbage = if a == "" then d.garbage else (discard "receipt" a d).garbage;
}

unfoldable pub remove_job : Job → Db → Db
remove_job j d =
    let g = discard_receipt j.attempt d in
    record g {
      pins = delete (λ p. p.owner == j.id) g.pins;
      dependencies = delete (λ e. e.job == j.id) g.dependencies;
      attempts = delete (λ (a : Attempt). a.job == j.id) g.attempts;
      jobs = delete (λ (x : Job). x.id == j.id) g.jobs;
    }

unfoldable pub remove_jobs : List Job → Db → Db
remove_jobs [] d = d
remove_jobs (j ∷ js) d = remove_jobs js (remove_job j d)

-- created < cutoff AND NOT EXISTS (SELECT 1 FROM pins WHERE pins.ref=artifacts.ref)
unfoldable pub is_stale : Env → Db → Artifact → Bool
is_stale env d a = is_old env a.created && not (exists (λ p. p.ref == a.ref) d.pins)

unfoldable pub remove_artifacts : List Artifact → Db → Db
remove_artifacts [] d = d
remove_artifacts (a ∷ as') d =
    let g = discard "artifact" a.ref d in
    remove_artifacts as'
      (record g { artifacts = delete (λ (x : Artifact). x.ref == a.ref) g.artifacts })

-- files with no row
unfoldable pub discard_orphans : Env → List ArtifactFile → Db → Db
discard_orphans env [] d = d
discard_orphans env (f ∷ fs) d = discard_orphans env fs (
    if is_old env f.mtime && not (exists (λ (a : Artifact). a.ref == f.name) d.artifacts)
    then discard "artifact" f.name d
    else d)

-- What `sweep` does with the file of a row of garbage.
unfoldable pub unlink : Garbage → World → World
unlink g w =
    if g.kind == "artifact"
    then (if exists (λ (a : Artifact). a.ref == g.ref) w.artifacts
        then w
        else record w { artifact_files = delete (λ f. f.name == g.ref) w.artifact_files })
    else if exists (λ (a : Attempt). a.id == g.ref) w.attempts
    then w
    else record w { receipt_files = delete (λ r. r.attempt == g.ref) w.receipt_files }

unfoldable pub sweep_rows : List Garbage → Method Unit
sweep_rows [] = pure tt
sweep_rows (g ∷ gs) = do
  is_artifact ← gets (λ w. g.kind == "artifact")
  listed ← gets (λ w. exists (λ (a : Artifact). a.ref == g.ref) w.artifacts)
  attempted ← gets (λ w. exists (λ (a : Attempt). a.id == g.ref) w.attempts)
  raise_if (is_artifact && (not listed && not (hex_ref "artifact_" 64 g.ref)))
      (scheduler "invalid_artifact_ref" 400)
  raise_if (not is_artifact && (not attempted && not (hex_ref "" 32 g.ref)))
      (scheduler "invalid_attempt" 400)
  modify (unlink g)
  execute (λ d. record d { garbage = delete (λ x. x.kind == g.kind && x.ref == g.ref) d.garbage })
  sweep_rows gs

unfoldable pub sweep : Env → Method Unit
sweep env = tx env do rows ← gets (λ w. w.garbage); sweep_rows rows

-- The transaction of `collect`: how many jobs and artifacts it removed.
unfoldable pub collect_rows : Env → Method (ℕ × ℕ)
collect_rows env = tx env do
  rows ← gets (λ w. select (is_collectable env w) w.jobs)
  execute (remove_jobs rows)
  stale ← gets (λ w. select (is_stale env w.db) w.artifacts)
  execute (remove_artifacts stale)
  files ← gets (λ w. w.artifact_files)
  execute (discard_orphans env files)
  pure (length rows, length stale)

unfoldable pub collect : Env → Method (ℕ × ℕ)
collect env = do counts ← collect_rows env; fault env "after_gc_commit"; sweep env; pure counts
