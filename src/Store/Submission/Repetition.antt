-- ===== src/Store/Submission/Repetition.antt =====
-- submit of selfhost_models/scheduler_store.py for an idempotency key that is known.
use selfhost_models.Prelude.{
  ◌≡◌, refl, String, Bool, true, false, none, some, length, ltb, Bool-cases, inl, inr, ◌==◌,
  if◌then◌else◌,
}
use selfhost_models.Sql.{first}
use selfhost_models.Action.{Result, ok, err, scheduler, ◌>>=◌}
use selfhost_models.Schema.Text.{full_match, key_char}
use selfhost_models.Schema.Job.{SubmitJob}
use selfhost_models.Tables.{Job, PublicJob}
use selfhost_models.Store.Base.{World, Env, tx, finish}
use selfhost_models.Store.Queue.{public_job}
use selfhost_models.Store.Submission.{submit, submit_keyed}

-- the hash of the canonical text of a job
abbrev pub hash_of : Env → SubmitJob → String
hash_of env spec = env.sha256 (env.encode (env.canonical_job spec))

-- What a repeated submission answers.
abbrev pub answer : Env → SubmitJob → Job → Result (PublicJob × Bool)
answer env spec old =
    if old.content_hash == hash_of env spec
    then ok (public_job old, false)
    else err (scheduler "idempotency_conflict" 409)

-- When a submission passes the checks before its transaction and its key is that of a stored job,
-- then no new job is made: the stored job is returned, whatever became of it, if the content is
-- the same, and idempotency_conflict if it is not. Nothing changes, even in a store that is full,
-- blocked or closed for maintenance.
pub submit_known :
    (env : Env) (spec : SubmitJob) (key uuid : String) (w : World) (old : Job)
    → env.fault "before_commit" ≡ none
    → full_match key_char 1 128 key ≡ true
    → ltb env.config.drain_seconds spec.execution_timeout_seconds ≡ false
    → ltb env.config.input_bytes (length (env.encode (env.canonical_job spec))) ≡ false
    → first (λ (j : Job). j.idem == key) w.jobs ≡ some old
    → submit env spec key uuid w ≡ (answer env spec old, w)
unfolding submit submit_keyed tx finish ◌>>=◌
submit_known env spec key uuid w old f k d i e =
    elim (Bool-cases (old.content_hash == hash_of env spec)) [
      | inl h ↦ rw (k, d, i, e, h, f) refl
      | inr h ↦ rw (k, d, i, e, h) refl
    ]
