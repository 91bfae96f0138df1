-- ===== src/Batch/Reading.antt =====
-- Results from their import to their reading: import_results and result_files of the class BatchStore of
-- selfhost_models/batch.py.
use selfhost_models.Prelude.{
  ℕ, ◌+◌, ◌≡◌, refl, sym, ap, subst, ◌∙◌, String, true, Option, none, some, List, [], ◌∷◌, ◌++◌,
  ltb, eqb_iff, ◌==◌, eq_refl, arith, Bool-cases, inl, inr,
}
use mathlib.Core.List.{Permᴰ}
use selfhost_models.Sql.{select, first, insert}
use selfhost_models.Action.{ok, ◌>>=◌}
use selfhost_models.Action.Laws.{Result-cases}
use selfhost_models.Batch.{
  files_of, Env, Batches, Job, JobRow, File, FileRow, Digest, tx, finish_tx, capacity, used_bytes,
  stored_files, manifest, find_job, or_not_found, job_row, put_job, save_job, with_event,
  is_available,
}
use selfhost_models.Batch.Paths.{validate_files}
use selfhost_models.Batch.Results.{
  has_file, add_file, insert_files, published, put_results, import_results, same_digests,
  result_files, content_bytes,
}
use selfhost_models.Batch.Histories.{insert_files-jobs}
use selfhost_models.Batch.Once.{row-id, committed}
use selfhost_models.Batch.Steps.{find-put_job, after, IsTidy}

append_nil : {A : Type 0} (xs : List A) → xs ++ [] ≡ xs
append_nil [] = refl
append_nil (x ∷ xs) = ap (λ ys. x ∷ ys) (append_nil xs)

append_assoc :
    {A : Type 0} (xs : List A) (y : A) (ys : List A) → (xs ++ y ∷ []) ++ ys ≡ xs ++ y ∷ ys
append_assoc [] y ys = refl
append_assoc (x ∷ xs) y ys = ap (λ zs. x ∷ zs) (append_assoc xs y ys)

stored_files-insert :
    (o : String) (f : File) (rs : List FileRow)
    → stored_files o (insert (record { owner = o; file = f }) rs) ≡ stored_files o rs ++ f ∷ []
unfolding stored_files select insert
stored_files-insert o f [] = rw (eq_refl o) refl
stored_files-insert o f (r ∷ rs) = elim (Bool-cases (r.owner == o)) [
  | inl e ↦ rw e (ap (λ fs. r.file ∷ fs) (stored_files-insert o f rs))
  | inr e ↦ rw e (stored_files-insert o f rs)
]

-- The inserted files stand behind those that the owner had.
insert_files-read :
    (o : String) (fs : List File) (s : Batches)
    → (insert_files o fs s).0 ≡ ok tt
    → stored_files o (insert_files o fs s).1.result_files ≡ stored_files o s.result_files ++ fs
unfolding insert_files add_file ◌>>=◌
insert_files-read o [] s h = sym (append_nil _)
insert_files-read o (f ∷ fs) s h = elim (Bool-cases (has_file o f s)) [
  | inl e ↦ absurd (ground (arith, rw e at h))
  | inr e ↦ rw e (
      insert_files-read o fs (add_file o f s) (rw e at h)
      ∙ ap (λ gs. gs ++ fs) (stored_files-insert o f s.result_files)
      ∙ append_assoc _ f fs)
]

same_digests_refl : (ds : List Digest) → same_digests ds ds ≡ true
same_digests_refl [] = refl
same_digests_refl (d ∷ ds) =
    rw (eq_refl d.path, (eqb_iff d.size d.size).1 refl, eq_refl d.sha256) (same_digests_refl ds)

capacity_same : (n : ℕ) (s : Batches) → (capacity n s).1 ≡ s
unfolding capacity ◌>>=◌
capacity_same n s = elim (Bool-cases (ltb 268435456 (used_bytes s + n))) [
  | inl e ↦ rw e refl
  | inr e ↦ rw e refl
]

abbrev results_of : Env → List File → String → Job → Job
results_of env fs p j = with_event env "results_available" (published env fs p j)

-- What a successful _results did.
put_results_state :
    (env : Env) (j x : Job) (fs : List File) (p : String) (s : Batches)
    → (put_results env j fs p s).0 ≡ ok x
    → ((insert_files j.id fs s).0 ≡ ok tt)
      × ((put_results env j fs p s).1 ≡ put_job (results_of env fs p j) (insert_files j.id fs s).1)
unfolding put_results save_job ◌>>=◌
put_results_state env j x fs p s h = elim (Bool-cases (is_available j.result_state)) [
  | inl a ↦ absurd (ground (arith, rw a at h))
  | inr a ↦ elim (Result-cases (validate_files env fs)) [
    | inl (e, v) ↦ absurd (ground (arith, rw (a, v) at h))
    | inr (u, v) ↦ elim (Result-cases (capacity (content_bytes fs) s).0) [
      | inl (e, c) ↦ absurd (ground (arith, rw (a, v, c) at h))
      | inr (w, c) ↦ elim (Result-cases (insert_files j.id fs s).0) [
        | inl (e, k) ↦
            absurd (ground (arith, rw (a, v, c, capacity_same (content_bytes fs) s, k) at h))
        | inr (z, k) ↦ (k, rw (a, v, c, capacity_same (content_bytes fs) s, k) refl)
      ]
    ]
  ]
]

manifest_same :
    (env : Env) (fs : List File)
    → env.sorted (env.scan fs) ≡ env.sorted fs
    → manifest env (env.scan fs) ≡ manifest env fs
unfolding manifest
manifest_same env fs o = rw o refl

result_files-found :
    (env : Env) (id : String) (r : JobRow) (fs : List File) (t : Batches)
    → find_job id t ≡ some r
    → is_available r.document.result_state ≡ true
    → stored_files id t.result_files ≡ fs
    → r.document.results ≡ manifest env fs
    → env.sorted (env.scan fs) ≡ env.sorted fs
    → result_files env id t ≡ (ok (env.scan fs), t)
unfolding result_files job_row or_not_found tx ◌>>=◌
result_files-found env id r fs t e a f m o =
    let read : files_of env id t.result_files ≡ env.scan fs = ap env.scan f in
    rw (e, a) (rw (read, manifest_same env fs o, m, same_digests_refl (manifest env fs)) refl)

put_results-read :
    (env : Env) (id : String) (r : JobRow) (fs : List File) (p : String) (x : Job) (s : Batches)
    → find_job id s ≡ some r
    → r.document.id ≡ id
    → stored_files id s.result_files ≡ []
    → (put_results env r.document fs p s).0 ≡ ok x
    → env.sorted (env.scan fs) ≡ env.sorted fs
    → result_files env id (put_results env r.document fs p s).1
      ≡ (ok (env.scan fs), (put_results env r.document fs p s).1)
unfolding find_job with_event published put_job
put_results-read env id r fs p x s e n z h o =
    let q = put_results_state env r.document x fs p s h in
    subst (λ t. result_files env id t ≡ (ok (env.scan fs), t)) (sym q.1)
      (result_files-found env id _ fs
        (put_job (results_of env fs p r.document) (insert_files r.document.id fs s).1)
        (find-put_job id r (results_of env fs p r.document) (insert_files r.document.id fs s).1
          (ap (first (λ (y : JobRow). y.id == id)) (insert_files-jobs env r.document.id fs s) ∙ e)
          n)
        refl (files_read q.0) refl o)
  where
    files_read :
        (insert_files r.document.id fs s).0 ≡ ok tt
        → stored_files id (insert_files r.document.id fs s).1.result_files ≡ fs
    files_read g =
        subst
          (λ v.
            stored_files v s.result_files ≡ []
            → stored_files v (insert_files r.document.id fs s).1.result_files ≡ fs)
          n (λ w. insert_files-read r.document.id fs s g ∙ ap (λ gs. gs ++ fs) w) z

found-read :
    (env : Env) (id : String) (f : Option JobRow) (fs : List File) (x : Job) (s : Batches)
    → IsTidy s
    → find_job id s ≡ f
    → stored_files id s.result_files ≡ []
    → ((or_not_found f >>= λ r. put_results env r.document fs "manual_import") s).0 ≡ ok x
    → env.sorted (env.scan fs) ≡ env.sorted fs
    → result_files env id
        ((or_not_found f >>= λ r. put_results env r.document fs "manual_import") s).1
      ≡ (
        ok (env.scan fs),
        ((or_not_found f >>= λ r. put_results env r.document fs "manual_import") s).1,
      )
unfolding or_not_found ◌>>=◌
found-read env id none fs x s t e z h o = absurd (ground arith)
found-read env id (some r) fs x s t e z h o =
    put_results-read env id r fs "manual_import" x s e (row-id id r s t e) z h o

imported :
    (env : Env) (id : String) (b : List ℕ) (fs : List File) (s : Batches)
    → env.read_archive b ≡ ok fs
    → import_results env id b s
      ≡ finish_tx s
          ((or_not_found (find_job id s) >>= λ r. put_results env r.document fs "manual_import") s)
unfolding import_results job_row tx ◌>>=◌
imported env id b fs s k = rw k refl

-- The results that an import saved for a job that had no result files are read back: the reader
-- gets the files of the archive, each as often as the archive holds it and in the order in which the
-- database returns them, and reading them changes nothing. The database is taken to return every
-- stored file, in some order, and sorting the files to forget that order.
pub import_results-result_files :
    (env : Env) (id : String) (b : List ℕ) (fs : List File) (x : Job) (s : Batches)
    → IsTidy s
    → stored_files id s.result_files ≡ []
    → env.read_archive b ≡ ok fs
    → Permᴰ (env.scan fs) fs
    → env.sorted (env.scan fs) ≡ env.sorted fs
    → (import_results env id b s).0 ≡ ok x
    → (read : List File) × Permᴰ read fs
      × (result_files env id (after (import_results env id b) s)
          ≡ (ok read, after (import_results env id b) s))
import_results-result_files env id b fs x s t z k p o h =
    let w =
      (or_not_found (find_job id s) >>= λ r. put_results env r.document fs "manual_import") s in
    let e = imported env id b fs s k in
    let c = committed s w x (sym (ap (λ v. v.0) e) ∙ h) in
    (
      env.scan fs,
      p,
      subst (λ u. result_files env id u ≡ (ok (env.scan fs), u)) (sym (ap (λ v. v.1) e ∙ c.1))
          (found-read env id (find_job id s) fs x s t refl z c.0 o),
    )
