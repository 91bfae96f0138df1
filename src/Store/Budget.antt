-- ===== src/Store/Budget.antt =====
-- The lifetime budget of loads and generations and its windows: reserve_load,
-- check_budget_window, open_budget_window, close_budget_window and budget_windows of
-- selfhost_models/scheduler_store.py, check_fleet_budget_idle of fleet_store.py. Subtractions of
-- the source are written as additions on the other side.
use selfhost_models.Prelude.{
  ℕ, ◌+◌, ◌-◌, String, Bool, true, false, ◌&&◌, ◌||◌, not, Option, none, some, [], ◌∷◌, is_some,
  leb, ltb, ◌==◌, if◌then◌else◌,
}
use selfhost_models.Sql.{first, exists, update, insert}
use selfhost_models.Action.{scheduler, pure, raise, gets, raise_if, ◌>>=◌, ◌>>◌}
use selfhost_models.Schema.Text.{full_match, window_char}
use selfhost_models.Schema.Deployment.{Deployment, is_vllm, in_range}
use selfhost_models.Tables.{Db, Job, Window, is_queued, is_inflight, is_idle, number}
use selfhost_models.Store.Base.{World, Env, Method, execute, tx, event, fenced, deployment_id}
use selfhost_models.Store.Control.{has_leases}

-- SELECT * FROM budget_windows WHERE closed IS NULL
unfoldable pub open_window : World → Option Window
open_window w = first (λ (v : Window). not (is_some v.closed)) w.windows

-- Whether the open window has room for some loads and generations more.
unfoldable pub window_allows : ℕ → ℕ → World → Bool
window_allows loads generations w = elim (open_window w) [
  | none ↦ true
  | some v ↦ not (
      ltb (v.max_loads + v.start_loads) (w.loads + loads)
      || ltb (v.max_generations + v.start_generations) (w.generations + generations))
]

unfoldable pub check_budget_window : ℕ → ℕ → Method Unit
check_budget_window loads generations = do
  room ← gets (window_allows loads generations)
  raise_if (not room) (scheduler "budget_window_exhausted" 429)

-- How many generations the warm-up of a deployment may use.
unfoldable pub warmups : Deployment → ℕ
warmups dep =
    if not (is_vllm dep.runtime)
    then 1
    else 2
      + (if ltb 1 dep.load.capacity then dep.load.capacity else 0)
      + (if dep.load.video then dep.load.capacity else 0)

-- UPDATE budget SET loads=loads+1,generations=generations+?
unfoldable pub spend_load : ℕ → Db → Db
spend_load n d = record d { loads = d.loads + 1; generations = d.generations + n }

unfoldable pub reserve_load : Env → ℕ → Deployment → Method Unit
reserve_load env epoch dep = tx env do
  fenced epoch
  spent ← gets (λ w.
      leb env.config.max_load_attempts w.loads
      || ltb env.config.max_generation_attempts (w.generations + warmups dep))
  raise_if spent (scheduler "lifecycle_budget_exhausted" 429)
  check_budget_window 1 (warmups dep)
  execute (spend_load (warmups dep))
  execute (
      event env "load_budget_reserved" (some (deployment_id env dep))
        (("warmup_generation_upper_bound", number (warmups dep)) ∷ []))

-- check_fleet_budget_idle(c)
unfoldable pub fleet_busy : World → Bool
fleet_busy w = elim w.fleet [
  | none ↦ false
  | some f ↦ f.enabled && exists (λ p. not (is_idle p)) w.executor_phases
]

-- The phase is neither unloaded nor ready, or something is leased, queued or in flight.
unfoldable pub busy : World → Bool
busy w =
    not (is_idle w.controller.phase)
    || (has_leases w || exists (λ (j : Job). is_queued j.state || is_inflight j.state) w.jobs)

-- SELECT 1 FROM budget_windows WHERE closed IS NULL OR name=?
unfoldable pub window_taken : String → World → Bool
window_taken name w = exists (λ (v : Window). not (is_some v.closed) || v.name == name) w.windows

-- INSERT INTO budget_windows VALUES(?,?,NULL,?,?,?,?,NULL,NULL)
unfoldable pub add_window : Env → String → ℕ → ℕ → Db → Db
add_window env name loads generations d = record d {
  windows =
      insert
        (record {
          name = name;
          opened = env.clock;
          closed = none;
          start_loads = d.loads;
          start_generations = d.generations;
          max_loads = loads;
          max_generations = generations;
          end_loads = none;
          end_generations = none;
        })
        d.windows;
}

unfoldable pub open_budget_window : Env → String → ℕ → ℕ → Method Unit
open_budget_window env name loads generations = do
  raise_if
      (not (full_match window_char 1 64 name)
        || (not (in_range 1 100000 loads) || not (in_range 1 10000000 generations)))
      (scheduler "invalid_budget_window" 400)
  tx env do
    fleet ← gets fleet_busy
    raise_if fleet (scheduler "budget_window_requires_idle" 409)
    active ← gets busy
    raise_if active (scheduler "budget_window_requires_idle" 409)
    taken ← gets (window_taken name)
    raise_if taken (scheduler "budget_window_exists" 409)
    execute (add_window env name loads generations)
    execute (
        event env "budget_window_opened" (some name)
          (("max_loads", number loads) ∷ ("max_generations", number generations) ∷ []))

-- UPDATE budget_windows SET closed=?,end_loads=?,end_generations=? WHERE name=?
unfoldable pub close_window : Env → String → Db → Db
close_window env name d = record d {
  windows =
      update (λ v. v.name == name)
        (λ v. record v {
          closed = some env.clock;
          end_loads = some d.loads;
          end_generations = some d.generations;
        })
        d.windows;
}

unfoldable pub closing : Env → String → Option Window → Method Unit
closing env name none = raise (scheduler "budget_window_not_found" 404)
closing env name (some v) = if is_some v.closed then pure tt else do
  fleet ← gets fleet_busy
  raise_if fleet (scheduler "budget_window_requires_idle" 409)
  active ← gets busy
  raise_if active (scheduler "budget_window_requires_idle" 409)
  w ← gets (λ w. w)
  execute (close_window env name)
  execute (
      event env "budget_window_closed" (some name) (
        ("loads", number (w.loads - v.start_loads))
        ∷ ("generations", number (w.generations - v.start_generations))
        ∷ []))

unfoldable pub close_budget_window : Env → String → Method Unit
close_budget_window env name =
    tx env do
      found ← gets (λ w. first (λ (v : Window). v.name == name) w.windows)
      closing env name found
