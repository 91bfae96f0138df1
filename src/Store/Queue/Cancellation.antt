-- ===== src/Store/Queue/Cancellation.antt =====
-- cancel of selfhost_models/scheduler_store.py, whatever state the job is in.
use selfhost_models.Prelude.{
  ◌≡◌, refl, sym, subst, ap, String, Bool, true, false, none, some, List, if◌then◌else◌, ◌==◌,
  eq_iff,
}
use selfhost_models.Sql.{first, update}
use selfhost_models.Sql.Laws.{first-holds}
use selfhost_models.Sql.Prefix.{first-update}
use selfhost_models.Action.{ok, ◌>>=◌}
use selfhost_models.Tables.{Job, canceled, is_queued, is_active}
use selfhost_models.Store.Base.{World, Env, tx, finish, execute, event}
use selfhost_models.Store.Queue.{
  cancel, cancel_queued, cancel_update, job, require_job, or_job_not_found, public_job,
}

-- The row that a cancellation leaves.
abbrev pub canceled_row : Env → Job → Job
canceled_row env r =
    if is_queued r.state
    then record r {
      state = canceled;
      cancel_requested = true;
      ended = some env.clock;
      reservation = 0;
    }
    else if is_active r.state
    then record r { cancel_requested = true }
    else r

same_id :
    (env : Env) (r : Job) (jid : String) (js : List Job)
    → first (λ (j : Job). j.id == jid) js ≡ some r
    → (f : Job → Job) → ((j : Job) → (f j).id ≡ j.id)
    → first (λ (j : Job). j.id == jid) (update (λ j. j.id == r.id) f js) ≡ some (f r)
same_id env r jid js e f k =
    subst (λ i. first (λ (j : Job). j.id == jid) (update (λ j. j.id == i) f js) ≡ some (f r))
      (sym ((eq_iff r.id jid).0 (first-holds (λ (j : Job). j.id == jid) js e)))
      (first-update (λ (j : Job). j.id == jid) f r js (λ j. ap (λ i. i == jid) (k j)) e)

row_first :
    (env : Env) (r : Job) (jid : String) (js : List Job)
    → first (λ (j : Job). j.id == jid) js ≡ some r
    → (a b : Bool)
    → first
        (λ (j : Job). j.id == jid)
        (if a
          then update (λ j. j.id == r.id) (cancel_queued env) js
          else if b
          then update (λ j. j.id == r.id) (λ j. record j { cancel_requested = true }) js
          else js)
      ≡ some
          (if a then cancel_queued env r else if b then record r { cancel_requested = true } else r)
row_first env r jid js e true b = same_id env r jid js e (cancel_queued env) (λ j. refl)
row_first env r jid js e false true =
    same_id env r jid js e (λ j. record j { cancel_requested = true }) (λ j. refl)
row_first env r jid js e false false = e

-- A cancellation that commits returns the job as it is now stored: a queued job is canceled at
-- once and gives back its reservation, one in flight or in doubt is only marked, and a job that
-- has ended keeps everything.
pub cancel_lem :
    (env : Env) (jid : String) (w : World) (r : Job)
    → env.fault "before_commit" ≡ none
    → first (λ (j : Job). j.id == jid) w.jobs ≡ some r
    → ((cancel env jid w).0 ≡ ok (public_job (canceled_row env r)))
      × (first (λ (j : Job). j.id == jid) (cancel env jid w).1.jobs ≡ some (canceled_row env r))
unfolding cancel tx finish require_job or_job_not_found cancel_update execute event job ◌>>=◌
cancel_lem env jid w r h e =
    let f = row_first env r jid w.jobs e (is_queued r.state) (is_active r.state) in
    rw (e, h, f) (refl, f)
