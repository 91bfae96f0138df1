-- ===== src/Store/Queue/Orphans.antt =====
-- Jobs with a parent that cannot succeed, and the rounds of refresh_queue that look for them.
use selfhost_models.Prelude.{
  ℕ, ◌≡◌, refl, sym, subst, ap, Bool, true, false, ◌&&◌, List, [], ◌∷◌, arith, inl, inr, ◌∙◌,
  eq_iff, ◌==◌,
}
use selfhost_models.Sql.{exists}
use selfhost_models.Sql.Laws.{exists-some, first-holds}
use selfhost_models.Sql.Members.{In, first-In, not-exists}
use selfhost_models.Sql.Rows.{Rows}
use selfhost_models.Tables.{
  Db, Job, JobState, Dependency, failed, canceled, expired, dependency_failed, is_queued, is_dead,
}
use selfhost_models.Store.Queue.{is_orphan, has_parent}
use selfhost_models.Store.Queue.Rounds.{Changed}

-- A job on which the job j depends has failed, was canceled, expired or lost a parent itself.
pub record IsOrphaned (d : Db) (j : Job) : Type 0 where
  pub edge : Dependency
  pub parent : Job
  pub listed : In edge d.dependencies
  pub stored : In parent d.jobs
  pub job_is : edge.job ≡ j.id
  pub parent_is : parent.id ≡ edge.parent
  pub ended : In parent.state (failed ∷ canceled ∷ expired ∷ dependency_failed ∷ [])

is_dead-In :
    (s : JobState) → is_dead s ≡ true → In s (failed ∷ canceled ∷ expired ∷ dependency_failed ∷ [])
is_dead-In failed h = inl refl
is_dead-In canceled h = inr (inl refl)
is_dead-In expired h = inr (inr (inl refl))
is_dead-In dependency_failed h = inr (inr (inr (inl refl)))
is_dead-In JobState.queued h = absurd (ground arith)
is_dead-In JobState.dispatching h = absurd (ground arith)
is_dead-In JobState.running h = absurd (ground arith)
is_dead-In JobState.draining h = absurd (ground arith)
is_dead-In JobState.unknown h = absurd (ground arith)
is_dead-In JobState.succeeded h = absurd (ground arith)

In-is_dead :
    (s : JobState) → In s (failed ∷ canceled ∷ expired ∷ dependency_failed ∷ []) → is_dead s ≡ true
In-is_dead s (inl e) = ap is_dead e
In-is_dead s (inr (inl e)) = ap is_dead e
In-is_dead s (inr (inr (inl e))) = ap is_dead e
In-is_dead s (inr (inr (inr (inl e)))) = ap is_dead e
In-is_dead s (inr (inr (inr (inr e)))) = absurd e

-- A row that was not queued is still there.
stays :
    (now : ℕ) (q : Job) (xs ys : List Job)
    → Rows (Changed now) xs ys
    → In q xs
    → is_queued q.state ≡ false
    → In q ys
stays now q [] ys r i e = absurd i
stays now q (x ∷ xs) [] r i e = absurd r
stays now q (x ∷ xs) (y ∷ ys) r (inr i) e = inr (stays now q xs ys r.1 i e)
stays now q (x ∷ xs) (y ∷ ys) r (inl p) e = kept r.0
  where
    kept : Changed now x y → In q (y ∷ ys)
    kept (inl h) = inl (p ∙ sym h)
    kept (inr (h, k)) =
        let c : is_queued x.state ≡ false = subst (λ (z : Job). is_queued z.state ≡ false) p e in
        absurd (cc)

found :
    {A : Type 0} (p : A → Bool) (xs : List A)
    → exists p xs ≡ true
    → (x : A) × In x xs × (p x ≡ true)
found p xs h = let (x, e) = exists-some p xs h in (x, first-In p x xs e, first-holds p xs e)

dead_not_queued : (s : JobState) → is_dead s ≡ true → is_queued s ≡ false
dead_not_queued s h = ground arith

both : (a b : Bool) → (a && b) ≡ true → (a ≡ true) × (b ≡ true)
both a b h = ground arith

-- The parent for which a job fails is still as it was when the rounds are over.
pub orphan_lem :
    (now : ℕ) (d after : Db) (j : Job)
    → Rows (Changed now) d.jobs after.jobs
    → after.dependencies ≡ d.dependencies
    → is_orphan d j ≡ true
    → IsOrphaned after j
unfolding is_orphan has_parent
orphan_lem now d after j r s h =
    let m = both _ _ h in
    let (e, i, p) =
      found
        (λ (e : Dependency).
          e.job == j.id && exists (λ q. q.id == e.parent && is_dead q.state) d.jobs)
        d.dependencies m.1 in
    let n = both _ _ p in
    let (q, k, u) = found (λ (q : Job). q.id == e.parent && is_dead q.state) d.jobs n.1 in
    let v = both _ _ u in
    record {
      edge = e;
      parent = q;
      listed = subst (In e) (sym s) i;
      stored = stays now q d.jobs after.jobs r k (dead_not_queued q.state v.1);
      job_is = (eq_iff e.job j.id).0 n.0;
      parent_is = (eq_iff q.id e.parent).0 v.0;
      ended = is_dead-In q.state v.1;
    }

pub not_orphaned :
    (d : Db) (j : Job) → is_orphan d j ≡ false → is_queued j.state ≡ true → IsOrphaned d j → ⊥
unfolding is_orphan has_parent
not_orphaned d j h w o =
    let a : exists
          (λ (e : Dependency).
            e.job == j.id && exists (λ q. q.id == e.parent && is_dead q.state) d.jobs)
          d.dependencies
        ≡ false =
      rw w at h in
    let b =
      not-exists
        (λ (e : Dependency).
          e.job == j.id && exists (λ q. q.id == e.parent && is_dead q.state) d.jobs)
        o.edge d.dependencies a o.listed in
    let c : exists (λ (q : Job). q.id == o.edge.parent && is_dead q.state) d.jobs ≡ false =
      rw ((eq_iff o.edge.job j.id).1 o.job_is) at b in
    let x =
      not-exists (λ (q : Job). q.id == o.edge.parent && is_dead q.state) o.parent d.jobs c
        o.stored in
    let y : false ≡ true = sym (
      rw ((eq_iff o.parent.id o.edge.parent).1 o.parent_is, In-is_dead o.parent.state o.ended) at
        x) in
    cc
