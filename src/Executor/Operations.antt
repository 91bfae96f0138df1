-- ===== src/Executor/Operations.antt =====
-- The operations on the engine: operation of the class Executor of selfhost_models/executor.py.
use selfhost_models.Prelude.{
  String, Bool, true, false, ◌&&◌, ◌||◌, not, Option, none, some, is, is_some, eqb, ◌==◌,
}
use selfhost_models.Action.{scheduler, pure, raise, lift, raise_if, when, ◌>>=◌, ◌>>◌}
use selfhost_models.Schema.Deployment.{Deployment}
use selfhost_models.Protocol.{Command, CommandKind, prepare, load, warmup, unload, retire, release}
use selfhost_models.Journal.{Env, Engine, EnginePhase, Method, loading, warming, ready, unloading}
use selfhost_models.Journal.Engines.{engine, exit_proof, set_engine, asset}
use selfhost_models.Journal.Commands.{check_fence}
use selfhost_models.Executor.{
  Outcome, Runtime, engine_exited, engine_or, gone, loaded, needed, prepared, readied, released,
  retired,
}

-- The branch of operation for `prepare`.
unfoldable pub operation_prepare : Env → Runtime → Command → Option Engine → Method Outcome
operation_prepare env rt c e = do
  raise_if (is_some e) (scheduler "engine_still_owned" 409)
  dep ← needed c.deployment
  found ← asset env dep.asset_ref true
  check_fence c
  lift (rt.prepare_asset dep found.0)
  pure prepared

-- the engine's document that is written before the runtime loads it
unfoldable pub loading_engine : Env → Command → Deployment → String → Engine
loading_engine env c dep handle = record {
  handle = handle;
  deployment = env.deployment_id dep;
  fence = c.fence;
  phase = loading;
  spec = dep;
  worker_epoch = none;
  container_id = none;
  exit_container_id = none;
}

-- The part of the branch for `load` from the write of the engine's document on.
unfoldable pub load_asset : Env → Runtime → Deployment → String → Engine → Method Outcome
load_asset env rt dep path e = do
  set_engine env (some e)
  worker_epoch ← lift (rt.load_engine dep path e.handle)
  id ← lift (rt.inspect e)
  set_engine env (
      some (record e { worker_epoch = some worker_epoch; phase = warming; container_id = some id }))
  pure (loaded worker_epoch)

unfoldable pub operation_load : Env → Runtime → Command → Option Engine → Method Outcome
operation_load env rt c e = do
  raise_if (is_some e) (scheduler "engine_still_owned" 409)
  dep ← needed c.deployment
  found ← asset env dep.asset_ref true
  check_fence c
  handle ← needed c.handle
  load_asset env rt dep found.0 (loading_engine env c dep handle)

unfoldable pub operation_release : Runtime → Option Engine → Method Outcome
operation_release rt e = do
  raise_if (is_some e) (scheduler "engine_still_owned" 409)
  lift rt.release_ownership
  pure released

abbrev is_warming : EnginePhase → Bool
is_warming warming = true
is_warming _ = false

unfoldable pub operation_warmup : Env → Runtime → Command → Deployment → Engine → Method Outcome
operation_warmup env rt c dep e = do
  raise_if (not (eqb e.fence c.fence) || not (is_warming e.phase))
      (scheduler "engine_grant_mismatch" 409)
  lift (rt.set_backend dep)
  epoch ← needed e.worker_epoch
  lift (rt.warmup_engine dep epoch)
  set_engine env (some (record e { phase = ready }))
  pure readied

unfoldable pub operation_unload : Env → Runtime → Engine → Method Outcome
operation_unload env rt e = do
  set_engine env (some (record e { phase = unloading }))
  lift (rt.unload_engine (record e { phase = unloading }))
  gone_now ← engine_exited env rt e.handle e.deployment
  raise_if (not gone_now) (scheduler "engine_exit_unconfirmed" 503)
  pure (gone e.handle)

abbrev is_engine : String → Option Engine → Bool
is_engine handle none = false
is_engine handle (some e) = e.handle == handle

unfoldable pub operation_retire : Env → Runtime → Engine → Method Outcome
operation_retire env rt e = do
  gone_now ← engine_exited env rt e.handle e.deployment
  raise_if (not gone_now) (scheduler "engine_exit_unconfirmed" 503)
  lift (rt.retire_engine e)
  current ← engine
  when (is_engine e.handle current) (set_engine env none)
  pure retired

abbrev pub owns : Env → Command → Deployment → Engine → Bool
owns env c dep e = is c.handle e.handle && e.deployment == env.deployment_id dep

-- The branches of operation below the test that the engine is the command's.
unfoldable pub on_engine :
    Env → Runtime → Command → CommandKind → Deployment → Engine → Method Outcome
on_engine env rt c warmup dep e = operation_warmup env rt c dep e
on_engine env rt c unload dep e = operation_unload env rt e
on_engine env rt c retire dep e = operation_retire env rt e
on_engine env rt c _ dep e = raise (scheduler "unknown_operation" 400)

unfoldable pub with_engine : Env → Runtime → Command → Option Engine → Method Outcome
with_engine env rt c none = raise (scheduler "engine_identity_unconfirmed" 409)
with_engine env rt c (some e) = do
  dep ← needed c.deployment
  raise_if (not (owns env c dep e)) (scheduler "engine_identity_unconfirmed" 409)
  on_engine env rt c c.kind dep e

unfoldable pub operation_kind :
    Env → Runtime → Command → CommandKind → Option Engine → Method Outcome
operation_kind env rt c prepare e = operation_prepare env rt c e
operation_kind env rt c load e = operation_load env rt c e
operation_kind env rt c release e = operation_release rt e
operation_kind env rt c retire e = do
  handle ← needed c.handle
  proof ← exit_proof handle
  with_engine env rt c (engine_or proof e)
operation_kind env rt c _ e = with_engine env rt c e

unfoldable pub operation : Env → Runtime → Command → Method Outcome
operation env rt c = do e ← engine; operation_kind env rt c c.kind e
