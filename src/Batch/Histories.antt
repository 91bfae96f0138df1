-- ===== src/Batch/Histories.antt =====
-- The rows of jobs along the histories of the class BatchStore of selfhost_models/batch.py.
use selfhost_models.Prelude.{
  ltb, ℕ, ◌+◌, ◌≡◌, refl, sym, subst, ap, ◌∙◌, String, Bool, true, false, some, List, [], ◌∷◌,
  arith, ◌==◌, Bool-cases, inl, inr,
}
use selfhost_models.Sql.{first}
use selfhost_models.Sql.Laws.{All}
use selfhost_models.Sql.Pairs.{Pairs}
use selfhost_models.Sql.Prefix.{Prefix, OtherKey}
use selfhost_models.Action.{Result, lift, ◌>>=◌}
use selfhost_models.Action.Keeps.{
  IsPreorder, KeepsAt, KeepsAt-pure, KeepsAt-lift, KeepsAt-bind-raise_if, KeepsAt-bind,
  KeepsAt-then,
}
use selfhost_models.Batch.{Env, Batches, Job, JobRow, Method, find_job, is_available}
use selfhost_models.Batch.Results.{collect, import_results}
use selfhost_models.Batch.{File, used_bytes, capacity}
use selfhost_models.Batch.Paths.{validate_files}
use selfhost_models.Batch.Results.{
  has_file, add_file, collect_open, insert_files, published, put_results,
}
use selfhost_models.Batch.Steps.{
  Step, Reach, here, next, intent_step, settle_step, cancel_step, confirm_step, collect_step,
  import_step, RowOnward, job_id, RowSane, IsTidy, Moved, Moves, Moves-IsPreorder, tx-Keeps,
}
use selfhost_models.Batch.Attempts.{
  IsNext, save_job-Keeps, job_row-Keeps, demo_intent-Keeps, demo_settle-Keeps, cancel-Keeps,
  demo_confirm-Keeps,
}

abbrev Keeps : {A : Type 0} → Method A → Batches → Type 0
Keeps m s = KeepsAt Moves m s

o : IsPreorder Moves
o = Moves-IsPreorder

module _ (env : Env) where
  published-IsNext :
      (fs : List File) (p : String) (x : Job)
      → is_available x.result_state ≡ false
      → IsNext x (published env fs p x)
  unfolding published
  published-IsNext fs p x h = record {
    onward = record {
      id = refl;
      attempts = omega arith;
      over = λ _. refl;
      published = λ e. absurd (ground (arith, h, e));
    };
    attempts = λ e. e;
    unattempted = λ e. e;
  }

  -- The files are added beside the jobs.
  pub insert_files-jobs :
      (owner : String) (fs : List File) (s : Batches) → (insert_files owner fs s).1.jobs ≡ s.jobs
  unfolding insert_files add_file ◌>>=◌
  insert_files-jobs owner [] s = refl
  insert_files-jobs owner (f ∷ fs) s = elim (Bool-cases (has_file owner f s)) [
    | inl e ↦ rw e refl
    | inr e ↦ rw e (insert_files-jobs owner fs (add_file owner f s))
  ]

  capacity-jobs : (n : ℕ) (s : Batches) → (capacity n s).1.jobs ≡ s.jobs
  unfolding capacity ◌>>=◌
  capacity-jobs n s = elim (Bool-cases (ltb 268435456 (used_bytes s + n))) [
    | inl e ↦ rw e refl
    | inr e ↦ rw e refl
  ]

  same-Moves : (s t : Batches) → t.jobs ≡ s.jobs → Moves s t
  same-Moves s t e h = record {
    tidy = record {
      ids = subst (Pairs (OtherKey job_id)) (sym e) h.ids;
      rows = subst (All RowSane) (sym e) h.rows;
    };
    jobs = subst (Prefix RowOnward s.jobs) (sym e) (o.same s h).jobs;
  }

  -- After an action that leaves the jobs the job is still found.
  beside-Keeps :
      {A B : Type 0} (m : Method A) (k : A → Method B) (id : String) (r : JobRow) (s : Batches)
      → (m s).1.jobs ≡ s.jobs
      → find_job id s ≡ some r
      → ((a : A) (t : Batches) → find_job id t ≡ some r → Keeps (k a) t)
      → Keeps (m >>= k) s
  unfolding find_job
  beside-Keeps m k id r s e f h =
      KeepsAt-bind o m k s (record { at = same-Moves s (m s).1 e })
        (λ a t q. h a t (
          ap (first (λ (x : JobRow). x.id == id))
            (ap (λ (v : Result _ × Batches). v.1.jobs) (sym q) ∙ e)
          ∙ f))

  put_results-Keeps :
      (id : String) (r : JobRow) (fs : List File) (p : String) (s : Batches)
      → find_job id s ≡ some r
      → Keeps (put_results env r.document fs p) s
  unfolding put_results lift
  put_results-Keeps id r fs p s e = KeepsAt-bind-raise_if o _ _ _ s (λ h.
      beside-Keeps (lift (validate_files env fs)) _ id r s refl e (λ _ t f.
        beside-Keeps (capacity _) _ id r t (capacity-jobs _ t) f (λ _ u g.
          beside-Keeps (insert_files r.document.id fs) _ id r u
            (insert_files-jobs r.document.id fs u) g
            (λ _ v k. save_job-Keeps env _ id r _ v k (published-IsNext fs p r.document h)))))

  collect_open-Keeps :
      (id : String) (r : JobRow) (b : Bool) (s : Batches)
      → find_job id s ≡ some r
      → Keeps (collect_open env r.document b) s
  unfolding collect_open
  collect_open-Keeps id r true s e = KeepsAt-pure o _ s
  collect_open-Keeps id r false s e = put_results-Keeps id r _ _ s e

  collect-Keeps : (id : String) (s : Batches) → Keeps (collect env id) s
  unfolding collect
  collect-Keeps id s = tx-Keeps _ s (
      job_row-Keeps env id _ s
        (λ r e. KeepsAt-bind-raise_if o _ _ _ s (λ _. collect_open-Keeps id r _ s e)))

  import_results-Keeps :
      (id : String) (b : List ℕ) (s : Batches) → Keeps (import_results env id b) s
  unfolding import_results
  import_results-Keeps id b s =
      KeepsAt-then o _ _ s (KeepsAt-lift o _ s)
        (λ fs t. tx-Keeps _ t (job_row-Keeps env id _ t (λ r e. put_results-Keeps id r fs _ t e)))

  pub Step-Moves : {s t : Batches} → Step env s t → Moves s t
  Step-Moves (intent_step id) = (demo_intent-Keeps env id _).at
  Step-Moves (settle_step id c) = (demo_settle-Keeps env id c _).at
  Step-Moves (cancel_step id) = (cancel-Keeps env id _).at
  Step-Moves (confirm_step id c) = (demo_confirm-Keeps env id c _).at
  Step-Moves (collect_step id) = (collect-Keeps id _).at
  Step-Moves (import_step id b) = (import_results-Keeps id b _).at

-- Along every history of calls on prepared jobs each job has one attempt at most, none while it is
-- prepared, and no more than its last hundred events; an attempt is not taken back, a job that is
-- over stays as it ended, a job whose results were published keeps its list of their digests and their
-- provenance, and each keeps its package: when the ids were apart and the jobs were so at the start.
pub history-Moved : (env : Env) {s t : Batches} → Reach env s t → IsTidy s → Moved s t
history-Moved env here h = o.same _ h
history-Moved env (next r x) h = o.step _ _ _ (history-Moved env r) (Step-Moves env x) h
