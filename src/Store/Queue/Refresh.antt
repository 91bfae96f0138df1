-- ===== src/Store/Queue/Refresh.antt =====
-- What refresh_queue leaves in the queue.
use selfhost_models.Prelude.{
  ℕ, zero, suc, ◌<◌, ◌≤◌, ◌≡◌, refl, sym, subst, ap, true, false, some, arith, eqb, Bool-cases, inl,
  inr, ◌⊎◌,
}
use selfhost_models.Sql.{count}
use selfhost_models.Sql.Laws.{All, All-map}
use selfhost_models.Sql.Rows.{Rows, Rows-refl, Rows-trans, Rows-update, Rows-All}
use selfhost_models.Tables.{Db, Job, expired, dependency_failed, is_queued}
use selfhost_models.Store.Queue.{
  is_overdue, expire, expire_overdue, is_orphan, fail_dependency, fail_orphans, cascade,
  refresh_queue,
}
use selfhost_models.Store.Queue.Rounds.{
  HasNoOrphan, waiting, cascade-zero, cascade-stop, cascade-go, is_orphan-queued, cascade-settles,
  Changed, cascade-Rows, none-overdue, still-not-overdue, cascade-frame,
}
use selfhost_models.Store.Queue.Orphans.{IsOrphaned, orphan_lem, not_orphaned}

-- What a refresh that left `after` may have done to a row: nothing, or end a queued job whose
-- deadline has come, or one of whose parents cannot succeed.
abbrev pub Refreshed : ℕ → Db → Job → Job → Type 0
Refreshed now after j k =
    (k ≡ j)
    ⊎ ((is_queued j.state ≡ true)
        × (((j.deadline ≤ now)
              × (k ≡ record j {
                state = expired;
                error = some "queue_deadline";
                ended = some now;
                reservation = 0;
              }))
            ⊎ (IsOrphaned after j
                × (k ≡ record j {
                  state = dependency_failed;
                  error = some "dependency_failed";
                  ended = some now;
                  reservation = 0;
                }))))

module _ (now : ℕ) (after : Db) where
  Refreshed-trans :
      (i j k : Job) → Refreshed now after i j → Refreshed now after j k → Refreshed now after i k
  Refreshed-trans i j k (inl e) b = subst (λ x. Refreshed now after x k) e b
  Refreshed-trans i j k (inr a) (inl e) = subst (λ x. Refreshed now after i x) (sym e) (inr a)
  Refreshed-trans i j k (inr (q, inl (t, e))) (inr (p, b)) =
      let c : false ≡ true = subst (λ (x : Job). is_queued x.state ≡ true) e p in absurd (cc)
  Refreshed-trans i j k (inr (q, inr (t, e))) (inr (p, b)) =
      let c : false ≡ true = subst (λ (x : Job). is_queued x.state ≡ true) e p in absurd (cc)

cascade-dependencies : (fuel now : ℕ) (d : Db) → (cascade fuel now d).dependencies ≡ d.dependencies
cascade-dependencies fuel now d = ap (λ (x : Db). x.dependencies) (cascade-frame fuel now d)

cascade-Refreshed :
    (fuel now : ℕ) (d : Db)
    → Rows (Refreshed now (cascade fuel now d)) d.jobs (cascade fuel now d).jobs
unfolding fail_orphans
cascade-Refreshed zero now d = rw cascade-zero (Rows-refl (Refreshed now d) (λ j. inl refl) d.jobs)
cascade-Refreshed (suc fuel) now d = elim (Bool-cases (eqb (count (is_orphan d) d.jobs) 0)) [
  | inl e ↦ rw (cascade-stop fuel now d e) (Rows-refl (Refreshed now d) (λ j. inl refl) d.jobs)
  | inr e ↦
      let g = cascade-go fuel now d e in
      let after = cascade fuel now (fail_orphans now d) in
      let rows =
        subst (λ (x : Db). Rows (Changed now) d.jobs x.jobs) g (cascade-Rows (suc fuel) now d) in
      rw g (
        Rows-trans (Refreshed now after) (Refreshed-trans now after) d.jobs
          (fail_orphans now d).jobs after.jobs
          (Rows-update (Refreshed now after) (is_orphan d) (fail_dependency now) d.jobs
            (λ j h. inr (
              is_orphan-queued d j h,
              inr (
                orphan_lem now d after j rows (cascade-dependencies fuel now (fail_orphans now d))
                    h,
                refl,
              ),
            ))
            (λ j h. inl refl))
          (cascade-Refreshed fuel now (fail_orphans now d)))
]

overdue_lem :
    (now : ℕ) (j : Job) → is_overdue now j ≡ true → (is_queued j.state ≡ true) × (j.deadline ≤ now)
unfolding is_overdue
overdue_lem now j h = ground arith

in_time_lem :
    (now : ℕ) (j : Job) → is_overdue now j ≡ false → is_queued j.state ≡ true → now < j.deadline
unfolding is_overdue
in_time_lem now j h q = ground arith

expire_overdue-Rows :
    (now : ℕ) (d after : Db) → Rows (Refreshed now after) d.jobs (expire_overdue now d).jobs
unfolding expire_overdue
expire_overdue-Rows now d after =
    Rows-update (Refreshed now after) (is_overdue now) (expire now) d.jobs
      (λ j e. let (q, t) = overdue_lem now j e in inr (q, inl (t, refl))) (λ j e. inl refl)

-- What a refresh guarantees of the tables before and after it.
pub record IsRefresh (now : ℕ) (before after : Db) : Type 0 where
  pub in_time : All (λ j. is_queued j.state ≡ true → now < j.deadline) after.jobs
  pub no_orphan : All (λ j. is_queued j.state ≡ true → IsOrphaned after j → ⊥) after.jobs
  pub rows : Rows (Refreshed now after) before.jobs after.jobs
  pub only_jobs : after ≡ record before { jobs = after.jobs }

-- Only the table of jobs changes.
pub refresh_queue-frame :
    (now : ℕ) (d : Db) → refresh_queue now d ≡ record d { jobs = (refresh_queue now d).jobs }
unfolding refresh_queue expire_overdue
refresh_queue-frame now d =
    cascade-frame (suc (waiting (expire_overdue now d))) now (expire_overdue now d)

pub refresh_queue-in_time :
    (now : ℕ) (d : Db) → All (λ j. is_overdue now j ≡ false) (refresh_queue now d).jobs
unfolding refresh_queue
refresh_queue-in_time now d =
    let e = expire_overdue now d in
    let fuel = suc (waiting e) in
    Rows-All (Changed now) (λ j. is_overdue now j ≡ false) e.jobs (cascade fuel now e).jobs
      (still-not-overdue now) (cascade-Rows fuel now e) (none-overdue now d)

refresh_queue-HasNoOrphan : (now : ℕ) (d : Db) → HasNoOrphan (refresh_queue now d)
unfolding refresh_queue
refresh_queue-HasNoOrphan now d =
    let e = expire_overdue now d in cascade-settles (suc (waiting e)) now e (omega arith)

refresh_queue-Rows :
    (now : ℕ) (d : Db)
    → Rows (Refreshed now (refresh_queue now d)) d.jobs (refresh_queue now d).jobs
unfolding refresh_queue
refresh_queue-Rows now d =
    let e = expire_overdue now d in
    let fuel = suc (waiting e) in
    let after = cascade fuel now e in
    Rows-trans (Refreshed now after) (Refreshed-trans now after) d.jobs e.jobs after.jobs
      (expire_overdue-Rows now d after) (cascade-Refreshed fuel now e)

-- The refresh of the queue ends its loop, changes only the table of jobs, and leaves no queued job
-- whose deadline has come or that has a parent which failed, was canceled, expired or lost a parent
-- itself. Each row is left alone, or it was queued and is expired, its deadline having come, or
-- failed, having such a parent; its reservation is then given back.
pub refresh_queue-IsRefresh : (now : ℕ) (d : Db) → IsRefresh now d (refresh_queue now d)
refresh_queue-IsRefresh now d =
    let after = refresh_queue now d in
    record {
      in_time =
          All-map (λ (j : Job). is_overdue now j ≡ false) _ after.jobs (in_time_lem now)
            (refresh_queue-in_time now d);
      no_orphan =
          All-map (λ (j : Job). is_orphan after j ≡ false) _ after.jobs (not_orphaned after)
            (refresh_queue-HasNoOrphan now d).rows;
      rows = refresh_queue-Rows now d;
      only_jobs = refresh_queue-frame now d;
    }
