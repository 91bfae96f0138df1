-- ===== src/Batch/Once.antt =====
-- The attempts of a job: demo of the class BatchStore of selfhost_models/batch.py.
use selfhost_models.Prelude.{
  ◌≡◌, refl, sym, subst, ◌∙◌, String, true, ◌||◌, not, Option, none, some, arith, eqb, ◌==◌, eq_iff,
  Bool-cases, inl, inr,
}
use selfhost_models.Sql.Laws.{All-first, first-holds}
use selfhost_models.Sql.Members.{In-All, first-In}
use selfhost_models.Sql.Prefix.{In-first, In-Prefix}
use selfhost_models.Action.{scheduler, Result, ok, err, ◌>>=◌}
use selfhost_models.Batch.{
  Env, Batches, Job, JobRow, tx, finish_tx, find_job, or_not_found, job_row, with_event, put_job,
  save_job, is_prepared, attempt, demo_intent,
}
use selfhost_models.Batch.{intended}
use selfhost_models.Batch.Steps.{
  find-put_job, after, Reach, intent_step, RowOnward, job_id, RowSane, IsTidy, Moved,
}
use selfhost_models.Batch.Histories.{Step-Moves, history-Moved}

-- A job whose attempt is recorded.
abbrev Attempted : String → Batches → Type 0
Attempted id s = (r : JobRow) × (find_job id s ≡ some r) × (r.document.attempt_count ≡ 1)

put-Attempted :
    (id : String) (r : JobRow) (j : Job) (s : Batches)
    → find_job id s ≡ some r
    → j.id ≡ id
    → j.attempt_count ≡ 1
    → Attempted id (put_job j s)
put-Attempted id r j s e i a = (record r { document = j }, find-put_job id r j s e i, a)

pub row-id :
    (id : String) (r : JobRow) (s : Batches)
    → IsTidy s
    → find_job id s ≡ some r
    → r.document.id ≡ id
unfolding find_job
row-id id r s h e =
    (All-first RowSane _ s.jobs h.rows e).named
    ∙ (eq_iff r.id id).0 (first-holds (λ (x : JobRow). x.id == id) s.jobs e)

attempt-Attempted :
    (env : Env) (id : String) (r x : JobRow) (s : Batches)
    → IsTidy s
    → find_job id s ≡ some r
    → (attempt env r s).0 ≡ ok x
    → Attempted id (attempt env r s).1
unfolding attempt save_job with_event intended ◌>>=◌
attempt-Attempted env id r x s h e g =
    elim (Bool-cases
      (not (is_prepared r.document.work_state) || not (eqb r.document.attempt_count 0))) [
        | inl b ↦ absurd (ground (arith, rw b at g))
        | inr b ↦ rw b (put-Attempted id r _ s e (row-id id r s h e) refl)
      ]

found-Attempted :
    (env : Env) (id : String) (f : Option JobRow) (x : JobRow) (s : Batches)
    → IsTidy s
    → find_job id s ≡ f
    → ((or_not_found f >>= attempt env) s).0 ≡ ok x
    → Attempted id ((or_not_found f >>= attempt env) s).1
unfolding or_not_found ◌>>=◌
found-Attempted env id none x s h e g = absurd (ground arith)
found-Attempted env id (some r) x s h e g = attempt-Attempted env id r x s h e g

-- A transaction that returns commits.
pub committed :
    {A : Type 0} (s : Batches) (w : Result A × Batches) (a : A)
    → (finish_tx s w).0 ≡ ok a
    → (w.0 ≡ ok a) × ((finish_tx s w).1 ≡ w.1)
committed s (ok b, t) a h = (h, refl)
committed s (err x, t) a h = absurd (ground arith)

intent-Attempted :
    (env : Env) (id : String) (x : JobRow) (s : Batches)
    → IsTidy s
    → (demo_intent env id s).0 ≡ ok x
    → Attempted id (after (demo_intent env id) s)
unfolding demo_intent job_row tx ◌>>=◌
intent-Attempted env id x s h g =
    let c = committed s ((or_not_found (find_job id s) >>= attempt env) s) x g in
    subst (Attempted id) (sym c.1) (found-Attempted env id (find_job id s) x s h refl c.0)

later-Attempted : (id : String) (s t : Batches) → Moved s t → Attempted id s → Attempted id t
unfolding find_job
later-Attempted id s t m (r, e, a) =
    let (y, i, l) = In-Prefix RowOnward r s.jobs t.jobs (first-In _ r s.jobs e) m.jobs in
    (
      y,
      In-first job_id id y t.jobs m.tidy.ids i
          (subst (λ v. (v == id) ≡ true) (sym l.id) (first-holds _ s.jobs e)),
      omega (arith, a, l.document.attempts, (In-All RowSane y t.jobs i m.tidy.rows).sane.attempts),
    )

-- a job with an attempt gets no other
refused :
    (env : Env) (id : String) (t : Batches)
    → Attempted id t
    → demo_intent env id t ≡ (err (scheduler "no_retry" 409), t)
unfolding demo_intent attempt job_row or_not_found tx ◌>>=◌
refused env id t (r, e, a) = elim (Bool-cases (is_prepared r.document.work_state)) [
  | inl p ↦ rw (e, p, a) refl
  | inr p ↦ rw (e, p) refl
]

-- Once the one attempt of a job is recorded, every later attempt is refused, whatever calls come
-- between, also when the first one's outcome is unknown; when the jobs were tidy at the start.
pub demo_intent-once :
    (env : Env) (id : String) (x : JobRow) (s t : Batches)
    → IsTidy s
    → (demo_intent env id s).0 ≡ ok x
    → Reach env (after (demo_intent env id) s) t
    → demo_intent env id t ≡ (err (scheduler "no_retry" 409), t)
demo_intent-once env id x s t h g r = refused env id t (
    later-Attempted id (after (demo_intent env id) s) t
      (history-Moved env r (Step-Moves env (intent_step id) h).tidy)
      (intent-Attempted env id x s h g))
