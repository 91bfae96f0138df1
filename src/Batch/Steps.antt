-- ===== src/Batch/Steps.antt =====
-- The calls of the class BatchStore of selfhost_models/batch.py on prepared jobs as steps, and what
-- they keep of the jobs.
use selfhost_models.Prelude.{
  ℕ, zero, suc, ◌-◌, ◌≤◌, ◌≡◌, refl, sym, subst, ap, ◌∙◌, String, true, some, List, [], ◌∷◌, length,
  arith, ◌==◌, eq_iff,
}
use selfhost_models.Sql.Laws.{All, All-map, All-first, first-holds}
use selfhost_models.Sql.Rows.{Rows-update}
use selfhost_models.Sql.Pairs.{Pairs, Pairs-Rows}
use selfhost_models.Sql.Prefix.{
  first-update, Prefix, Prefix-refl, Prefix-trans, Prefix-update, update-All, OtherKey, same_key,
  first-only,
}
use selfhost_models.Action.{Result, ok, err}
use selfhost_models.Action.Keeps.{IsPreorder, KeepsAt}
use selfhost_models.Sql.{first, update}
use selfhost_models.Batch.{
  Env, Batches, Job, JobRow, Event, Scenario, Outcome, Method, tx, finish_tx, find_job, drop,
  last_100, put_job, is_prepared, is_over, is_available, demo_intent, demo_settle, cancel,
  demo_confirm,
}
use selfhost_models.Batch.Results.{collect, import_results}

abbrev pub after : {A : Type 0} → Method A → Batches → Batches
after m s = (m s).1

-- demo stands by its two transactions, between which other calls may come.
pub data Step (env : Env) (s : Batches) : Batches → Type 0 where
  intent_step : (id : String) → Step env s (after (demo_intent env id) s)
  settle_step : (id : String) (x : Scenario) → Step env s (after (demo_settle env id x) s)
  cancel_step : (id : String) → Step env s (after (cancel env id) s)
  confirm_step : (id : String) (x : Outcome) → Step env s (after (demo_confirm env id x) s)
  collect_step : (id : String) → Step env s (after (collect env id) s)
  import_step : (id : String) (b : List ℕ) → Step env s (after (import_results env id b) s)

pub data Reach (env : Env) (s : Batches) : Batches → Type 0 where
  here : Reach env s s
  next : {t u : Batches} → Reach env s t → Step env t u → Reach env s u

-- A job has one attempt at most, none while it is prepared, and its last hundred events.
pub record IsSane (j : Job) : Type 0 where
  pub attempts : j.attempt_count ≤ 1
  pub unattempted : is_prepared j.work_state ≡ true → j.attempt_count ≡ 0
  pub bounded : length j.events ≤ 100

-- A job and a later version of it: an attempt is not taken back, an end stays, and
-- published results keep their list of digests and their provenance.
pub record Onward (x y : Job) : Type 0 where
  pub id : y.id ≡ x.id
  pub attempts : x.attempt_count ≤ y.attempt_count
  pub over : is_over x.work_state ≡ true → y.work_state ≡ x.work_state
  pub published :
      is_available x.result_state ≡ true
      → (is_available y.result_state ≡ true)
        × (y.results ≡ x.results)
        × (y.result_provenance ≡ x.result_provenance)

pub record RowSane (r : JobRow) : Type 0 where
  pub named : r.document.id ≡ r.id
  pub sane : IsSane r.document

pub record RowOnward (x y : JobRow) : Type 0 where
  pub id : y.id ≡ x.id
  pub archive : y.archive ≡ x.archive
  pub document : Onward x.document y.document

abbrev pub job_id : JobRow → String
job_id r = r.id

pub record IsTidy (s : Batches) : Type 0 where
  pub ids : Pairs (OtherKey job_id) s.jobs
  pub rows : All RowSane s.jobs

pub record Moved (s t : Batches) : Type 0 where
  pub tidy : IsTidy t
  pub jobs : Prefix RowOnward s.jobs t.jobs

abbrev pub Moves : Batches → Batches → Type 0
Moves s t = IsTidy s → Moved s t

pub Onward-refl : (x : Job) → Onward x x
Onward-refl x = record {
  id = refl;
  attempts = omega arith;
  over = λ _. refl;
  published = λ h. (h, refl, refl);
}

Onward-trans : (x y z : Job) → Onward x y → Onward y z → Onward x z
Onward-trans x y z a b = record {
  id = b.id ∙ a.id;
  attempts = omega (arith, a.attempts, b.attempts);
  over = λ h. b.over (ap is_over (a.over h) ∙ h) ∙ a.over h;
  published = λ h. let p = a.published h in let q = b.published p.0 in (q.0, q.1 ∙ p.1, q.2 ∙ p.2);
}

row_refl : (x : JobRow) → RowOnward x x
row_refl x = record { id = refl; archive = refl; document = Onward-refl x.document }

row_trans : (x y z : JobRow) → RowOnward x y → RowOnward y z → RowOnward x z
row_trans x y z a b = record {
  id = b.id ∙ a.id;
  archive = b.archive ∙ a.archive;
  document = Onward-trans x.document y.document z.document a.document b.document;
}

pub Moves-IsPreorder : IsPreorder Moves
Moves-IsPreorder = record {
  same = λ s h. record { tidy = h; jobs = Prefix-refl RowOnward row_refl s.jobs };
  step = λ s t u a b h.
      let m = a h in
      let n = b m.tidy in
      record {
        tidy = n.tidy;
        jobs = Prefix-trans RowOnward row_trans s.jobs t.jobs u.jobs m.jobs n.jobs;
      };
}

length-drop : (n : ℕ) (xs : List Event) → length (drop n xs) ≡ length xs - n
length-drop zero xs = omega arith
length-drop (suc n) [] = omega arith
length-drop (suc n) (x ∷ xs) = omega (arith, length-drop n xs)

pub last_100-bound : (xs : List Event) → length (last_100 xs) ≤ 100
unfolding last_100
last_100-bound xs = omega (arith, length-drop (length xs - 100) xs)

abbrev Keeps : {A : Type 0} → Method A → Batches → Type 0
Keeps m s = KeepsAt Moves m s

finish_tx-Moves :
    {A : Type 0} (s t : Batches) (r : Result A) → Moves s t → Moves s (finish_tx s (r, t)).1
finish_tx-Moves s t (ok a) h = h
finish_tx-Moves s t (err e) h = Moves-IsPreorder.same s

pub tx-Keeps : {A : Type 0} (m : Method A) (s : Batches) → Keeps m s → Keeps (tx m) s
unfolding tx
tx-Keeps m s k = record { at = finish_tx-Moves s (m s).1 (m s).0 k.at }

abbrev pub with_document : Job → JobRow → JobRow
with_document j r = record r { document = j }

-- A job is written over its own row.
pub put_job-Moves :
    (id : String) (r : JobRow) (j : Job) (s : Batches)
    → find_job id s ≡ some r
    → j.id ≡ r.document.id
    → (IsSane r.document → IsSane j)
    → Onward r.document j
    → Moves s (put_job j s)
unfolding put_job find_job
put_job-Moves id r j s e i k n h = record {
  tidy = record {
    ids =
        Pairs-Rows (OtherKey job_id) (λ x y. y.id ≡ x.id) s.jobs _ (same_key job_id)
          (Rows-update (λ x y. y.id ≡ x.id) _ (with_document j) s.jobs (λ x _. refl) (λ x _. refl))
          h.ids;
    rows =
        update-All RowSane _ (with_document j) s.jobs
          (only (λ x. RowSane (with_document j x))
            (record { named = i ∙ good.named; sane = k good.sane }))
          h.rows;
  };
  jobs = Prefix-update RowOnward _ (with_document j) s.jobs row_refl (
      only (λ x. RowOnward x (with_document j x))
        (record { id = refl; archive = refl; document = n }));
}
  where
    good : RowSane r
    good = All-first RowSane _ s.jobs h.rows e

    named : j.id ≡ id
    named = i ∙ good.named ∙ (eq_iff r.id id).0 (first-holds (λ (x : JobRow). x.id == id) s.jobs e)

    only : (P : JobRow → Type 0) → P r → All (λ x. (x.id == j.id) ≡ true → P x) s.jobs
    only P z =
        All-map (λ x. (x.id == id) ≡ true → x ≡ r) (λ x. (x.id == j.id) ≡ true → P x) s.jobs
          (λ x g b. subst P (sym (g (subst (λ v. (x.id == v) ≡ true) named b))) z)
          (first-only job_id id r s.jobs h.ids e)

-- A job written over its own row is found there.
pub find-put_job :
    (id : String) (r : JobRow) (j : Job) (s : Batches)
    → find_job id s ≡ some r
    → j.id ≡ id
    → find_job id (put_job j s) ≡ some (with_document j r)
unfolding find_job put_job
find-put_job id r j s e i =
    subst
      (λ v.
        first (λ (x : JobRow). x.id == id) (update (λ x. x.id == v) (with_document j) s.jobs)
        ≡ some (with_document j r))
      (sym i) (first-update (λ (x : JobRow). x.id == id) (with_document j) r s.jobs (λ x. refl) e)
