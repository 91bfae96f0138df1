-- ===== src/Store/Dispatch.antt =====
-- Leases and attempts: dispatch, attempt_state, legacy_admit, legacy_terminal, legacy_detach,
-- legacy_restart, lease_count and health of selfhost_models/scheduler_store.py.
use selfhost_models.Prelude.{
  ℕ, ◌+◌, String, Bool, true, false, ◌&&◌, ◌||◌, not, Option, none, some, [], ◌∷◌, length, is,
  is_some, leb, ltb, eqb, ◌==◌, if◌then◌else◌,
}
use selfhost_models.Sql.{first, exists, update, delete, insert, count}
use selfhost_models.Action.{
  scheduler, integrity, pure, raise, gets, raise_if, when, succeeds, not_null, ◌>>=◌, ◌>>◌,
}
use selfhost_models.Schema.Deployment.{Deployment}
use selfhost_models.Tables.{
  Db, Job, JobState, Attempt, Lease, LeaseState, Controller, Grant, Phase, Kind, dispatching,
  failed, active, detached, legacy, controller_epoch, api_process, is_inflight, is_ready,
  is_unknown, is_lease_active, is_detached, is_job, text, number,
}
use selfhost_models.Store.Base.{
  World, Env, Method, execute, tx, event, state, fenced, deployment, deployment_id,
}
use selfhost_models.Store.Budget.{check_budget_window}
use selfhost_models.Store.Queue.{choose}
use selfhost_models.Store.Grants.{add_grant}

unfoldable pub add_attempt : Attempt → Db → Db
add_attempt a d = record d { attempts = insert a d.attempts }

unfoldable pub add_lease : Lease → Db → Db
add_lease l d = record d { leases = insert l d.leases }

-- INSERT INTO attempts: the id is the primary key, and the job is unique.
unfoldable pub insert_attempt : Attempt → Method Unit
insert_attempt a = do
  taken ← gets (λ w. exists (λ (x : Attempt). x.id == a.id || x.job == a.job) w.attempts)
  raise_if taken integrity
  execute (add_attempt a)

-- INSERT INTO leases: the id is the primary key.
unfoldable pub insert_lease : Lease → Method Unit
insert_lease l = do
  taken ← gets (λ w. exists (λ (x : Lease). x.id == l.id) w.leases)
  raise_if taken integrity
  execute (add_lease l)

-- UPDATE jobs SET state='failed',error=?,ended=?,reservation=0 WHERE id=?
unfoldable pub fail_job : Env → String → String → Db → Db
fail_job env error jid d = record d {
  jobs =
      update (λ j. j.id == jid)
        (λ j. record j {
          state = failed;
          error = some error;
          ended = some env.clock;
          reservation = 0;
        })
        d.jobs;
}

-- UPDATE budget SET generations=generations+1
unfoldable pub spend_generation : Db → Db
spend_generation d = record d { generations = d.generations + 1 }

-- UPDATE jobs SET state='dispatching',attempt=? WHERE id=?
unfoldable pub start_job : String → String → Db → Db
start_job aid jid d = record d {
  jobs =
      update (λ j. j.id == jid) (λ j. record j { state = dispatching; attempt = some aid }) d.jobs;
}

-- From the spending of a generation to the end of `dispatch`; `aid` is the new uuid.
unfoldable pub launch : Env → ℕ → Controller → Deployment → Job → String → Method (Option Attempt)
launch env epoch s dep r aid = do
  execute spend_generation
  worker ← not_null s.worker_epoch
  insert_attempt (record {
    id = aid;
    job = r.id;
    owner = epoch;
    worker_epoch = worker;
    deployment = deployment_id env dep;
    started = env.clock;
    terminal = none;
    error = none;
  })
  insert_lease (record {
    id = aid;
    kind = Kind.job;
    deployment = deployment_id env dep;
    worker_epoch = worker;
    owner = env.str epoch;
    state = active;
    created = env.clock;
  })
  execute (start_job aid r.id)
  execute (λ d. record d {
    controller = record d.controller { reuse_count = d.controller.reuse_count + 1 };
  })
  add_grant env aid (controller_epoch epoch) Kind.job env.clock r.execution_limit
  execute (
      event env "dispatch_intent" (some r.id)
        (("attempt", text aid) ∷ ("owner", number epoch) ∷ ("worker_epoch", text worker) ∷ []))
  gets (λ w. first (λ (a : Attempt). a.id == aid) w.attempts)

-- The budget tests of `dispatch`, which fail the job where they refuse it.
unfoldable pub admit_dispatch :
    Env → ℕ → Controller → Deployment → Job → String → Method (Option Attempt)
admit_dispatch env epoch s dep r aid = do
  spent ← gets (λ w. leb env.config.max_generation_attempts w.generations)
  if spent then execute (fail_job env "generation_budget_exhausted" r.id) >> pure none else do
    room ← succeeds (check_budget_window 0 1)
    if not room
        then execute (fail_job env "budget_window_exhausted" r.id) >> pure none
        else do launch env epoch s dep r aid

unfoldable pub dispatch_chosen :
    Env → ℕ → String → String → Controller → Option Job → Method (Option Attempt)
dispatch_chosen env epoch jid aid s none = pure none
dispatch_chosen env epoch jid aid s (some r) = if not (r.id == jid) then pure none else do
  dep ← deployment r.deployment
  let id = deployment_id env dep
  if not (is_ready s.phase) || not (is s.deployment id) then pure none else do
    leased ← gets (λ w. length w.leases)
    if leb dep.load.capacity leased then pure none else admit_dispatch env epoch s dep r aid

unfoldable pub dispatch : Env → ℕ → String → String → Method (Option Attempt)
dispatch env epoch jid aid =
    tx env do s ← fenced epoch; chosen ← choose env; dispatch_chosen env epoch jid aid s chosen

-- state == "unknown"
abbrev pub is_lost : JobState → Bool
is_lost JobState.unknown = true
is_lost _ = false

abbrev pub is_draining : JobState → Bool
is_draining JobState.draining = true
is_draining _ = false

abbrev pub limit_or : ℕ → Option ℕ → ℕ
limit_or d none = d
limit_or d (some n) = n

unfoldable pub or_stale : Option Attempt → Method Attempt
or_stale none = raise (scheduler "stale_attempt" 409)
or_stale (some a) = pure a

-- UPDATE controller SET phase='unknown' WHERE worker_epoch=?
unfoldable pub doubt_worker : String → Db → Db
doubt_worker worker d = record d {
  controller =
      if is d.controller.worker_epoch worker
      then record d.controller { phase = Phase.unknown }
      else d.controller;
}

-- UPDATE leases SET state='unknown' WHERE ..., and the controller too if that changed a row
unfoldable pub doubt_leases : (Lease → Bool) → String → Db → Db
doubt_leases p worker d = record d {
  leases = update p (λ l. record l { state = LeaseState.unknown }) d.leases;
  controller = if exists p d.leases then (doubt_worker worker d).controller else d.controller;
}

-- UPDATE jobs SET state=?,error=? WHERE attempt=? AND state IN ('dispatching','running','draining')
unfoldable pub moves : String → Job → Bool
moves attempt j = is j.attempt attempt && is_inflight j.state

unfoldable pub move_attempt : String → JobState → Option String → Db → Db
move_attempt attempt to error d = record d {
  jobs = update (moves attempt) (λ j. record j { state = to; error = error }) d.jobs;
}

unfoldable pub attempt_state : Env → ℕ → String → JobState → Option String → Method Unit
attempt_state env epoch attempt to error = tx env do
  fenced epoch
  found ← gets (λ w. first (λ (a : Attempt). a.id == attempt && eqb a.owner epoch) w.attempts)
  r ← or_stale found
  changed ← gets (λ w. exists (moves attempt) w.jobs)
  execute (move_attempt attempt to error)
  when (is_lost to && changed) (
      execute
        (doubt_leases (λ l. l.id == attempt && l.worker_epoch == r.worker_epoch) r.worker_epoch))

unfoldable pub legacy_admit :
    Env → String → String → String → String → Option ℕ → Method (Option Grant)
legacy_admit env rid dep worker_epoch owner limit = do
  let execution_limit = limit_or env.config.drain_seconds limit
  raise_if (not (ltb 0 execution_limit) || ltb env.config.drain_seconds execution_limit)
      (scheduler "execution_limit_exceeds_drain" 400)
  tx env do
    s ← state
    raise_if
        (not (is_ready s.phase)
          || (not (is s.deployment dep)
              || (not (is s.worker_epoch worker_epoch) || ltb (s.heartbeat + 10) env.clock)))
        (scheduler "worker_not_ready" 503)
    spec ← deployment dep
    chosen ← choose env
    leased ← gets (λ w. length w.leases)
    raise_if (is_some chosen || leb spec.load.capacity leased) (scheduler "overloaded" 429)
    spent ← gets (λ w. leb env.config.max_generation_attempts w.generations)
    raise_if spent (scheduler "generation_budget_exhausted" 429)
    check_budget_window 0 1
    execute spend_generation
    insert_lease (record {
      id = rid;
      kind = legacy;
      deployment = dep;
      worker_epoch = worker_epoch;
      owner = owner;
      state = active;
      created = env.clock;
    })
    add_grant env rid (api_process owner) legacy env.clock execution_limit

-- id=? AND worker_epoch=? AND owner=?
unfoldable pub is_held : String → String → String → Lease → Bool
is_held rid worker_epoch owner l =
    l.id == rid && (l.worker_epoch == worker_epoch && l.owner == owner)

-- DELETE FROM leases WHERE id=? AND worker_epoch=? AND owner=?
unfoldable pub release_lease : String → String → String → Db → Db
release_lease rid worker_epoch owner d = record d {
  leases = delete (is_held rid worker_epoch owner) d.leases;
}

unfoldable pub legacy_terminal : Env → String → String → String → Bool → Method Unit
legacy_terminal env rid worker_epoch owner terminal = tx env (
    if terminal
    then execute (release_lease rid worker_epoch owner)
    else execute (doubt_leases (is_held rid worker_epoch owner) worker_epoch))

-- UPDATE leases SET state='detached' WHERE id=? AND owner=? AND state='active'
unfoldable pub detach_lease : String → String → Db → Db
detach_lease rid owner d = record d {
  leases =
      update (λ l. l.id == rid && (l.owner == owner && is_lease_active l.state))
        (λ l. record l { state = detached }) d.leases;
}

unfoldable pub legacy_detach : Env → String → String → Method Unit
legacy_detach env rid owner = tx env (execute (detach_lease rid owner))

-- kind='legacy' AND owner!=?
unfoldable pub is_orphaned : String → Lease → Bool
is_orphaned owner l = not (is_job l.kind) && not (l.owner == owner)

unfoldable pub doubt_orphaned : String → Db → Db
doubt_orphaned owner d = record d {
  leases = update (is_orphaned owner) (λ l. record l { state = LeaseState.unknown }) d.leases;
  controller = record d.controller { phase = Phase.unknown };
}

unfoldable pub legacy_restart : Env → String → Method Unit
legacy_restart env owner = tx env do
  orphaned ← gets (λ w. exists (is_orphaned owner) w.leases)
  when orphaned (execute (doubt_orphaned owner))

unfoldable pub lease_count : Method ℕ
lease_count = gets (λ w. length w.leases)

-- what health() returns
pub record Health : Type 0 where
  pub ready : Bool
  pub worker_epoch : Option String
  pub inflight : ℕ
  pub detached : ℕ
  pub uncertain : ℕ
  pub phase : Phase
  pub deployment_id : Option String

-- l.state='detached' OR j.cancel_requested=1 OR j.state='draining', for the job j of the lease
unfoldable pub is_released : World → Lease → Bool
is_released w l =
    is_detached l.state
    || exists (λ j. is j.attempt l.id && (j.cancel_requested || is_draining j.state)) w.jobs

unfoldable pub health : Env → Method Health
health env = gets (λ w. record {
  ready =
      is_ready w.controller.phase
      && (eqb (count (λ l. is_unknown l.state) w.leases) 0
          && leb env.clock (w.controller.heartbeat + 10));
  worker_epoch = w.controller.worker_epoch;
  inflight = length w.leases;
  detached = count (is_released w) w.leases;
  uncertain = count (λ l. is_unknown l.state) w.leases;
  phase = w.controller.phase;
  deployment_id = w.controller.deployment;
})
