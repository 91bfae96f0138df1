-- ===== src/Journal/Engines.antt =====
-- The fence, the assets, the deployments and the engine of the journal: recover, fence,
-- register_asset, asset, register, engine, set_engine and exit_proof of the class Journal of
-- selfhost_models/executor.py.
use selfhost_models.Prelude.{
  ℕ, String, Bool, true, false, ◌&&◌, ◌||◌, not, Option, none, some, length, is, truthy, leb, ltb,
  ◌==◌,
}
use selfhost_models.Sql.{first, exists, update, insert_or_ignore, insert_or_replace}
use selfhost_models.Action.{
  Result, ok, err, scheduler, pure, raise, lift, gets, modify, raise_if, when, ◌>>=◌, ◌>>◌,
}
use selfhost_models.Schema.Deployment.{Deployment}
use selfhost_models.Protocol.Manifest.{Manifest, validate_manifest}
use selfhost_models.Journal.{
  Env, Journal, AssetRow, DeploymentRow, Engine, EnginePhase, Exit, CommandState, Method, tx,
  is_accepted, is_executing, is_unknown, is_exited, document_handle,
}

-- UPDATE commands SET state='unknown' WHERE state IN ('accepted','executing')
unfoldable pub doubt_commands : Journal → Journal
doubt_commands s = record s {
  commands =
      update (λ r. is_accepted r.state || is_executing r.state)
        (λ r. record r { state = CommandState.unknown }) s.commands;
}

-- SELECT 1 FROM commands WHERE state='unknown' AND json_extract(command,'$.handle')=?
unfoldable pub has_unknown : String → Journal → Bool
has_unknown handle s =
    exists (λ r. is_unknown r.state && is (document_handle r.command) handle) s.commands

-- The part of recover that looks at the engine's row.
unfoldable pub doubt_engine : Option Engine → Method Unit
doubt_engine none = pure tt
doubt_engine (some e) = do
  doubted ← gets (has_unknown e.handle)
  when (not (is_exited e.phase) && doubted)
      (modify (λ s. record s { engine = some (record e { phase = EnginePhase.unknown }) }))

unfoldable pub recover : Method Unit
recover = tx do modify doubt_commands; e ← gets (λ s. s.engine); doubt_engine e

-- An epoch that is no integer is not a number here.
unfoldable pub fence : Env → String → String → ℕ → Method Unit
fence env authority executor epoch = do
  raise_if (not (authority == env.authority) || (not (executor == env.executor) || ltb epoch 1))
      (scheduler "executor_identity_mismatch" 409)
  tx do
    old ← gets (λ s. s.fence)
    raise_if (ltb epoch old) (scheduler "stale_controller" 409)
    modify (λ s. record s { fence = epoch })

abbrev differs : Env → Option Manifest → Manifest → Bool
differs env none m = false
differs env (some x) m = not (env.same_manifest x m)

abbrev elsewhere : String → Option AssetRow → Bool
elsewhere path none = false
elsewhere path (some a) = not (a.path == path)

-- INSERT OR IGNORE INTO assets VALUES(?,?,?)
unfoldable pub add_asset : AssetRow → Journal → Journal
add_asset a s = record s { assets = insert_or_ignore (λ x. x.ref == a.ref) a s.assets }

unfoldable pub register_asset : Env → String → Option Manifest → Method String
register_asset env path expected = do
  manifest ← lift (env.full_manifest path)
  raise_if (differs env expected manifest) (scheduler "asset_hash_mismatch" 400)
  ref ← lift (validate_manifest env.manifest_ref env.manifest_bytes manifest)
  tx do
    old ← gets (λ s. first (λ a. a.ref == ref) s.assets)
    raise_if (elsewhere (env.resolve path) old) (scheduler "asset_already_registered" 409)
    modify (add_asset (record { ref = ref; path = env.resolve path; manifest = manifest }))
  pure ref

-- validate_manifest(manifest) != ref
abbrev is_named : String → Result String → Result Bool
is_named ref (ok r) = ok (r == ref)
is_named ref (err e) = err e

-- verify and full_manifest(row['path']) != manifest
abbrev changed : Env → Bool → AssetRow → Result Bool
changed env false a = ok false
changed env true a = compared (env.full_manifest a.path)
  where
    compared : Result Manifest → Result Bool
    compared (ok m) = ok (not (env.same_manifest m a.manifest))
    compared (err e) = err e

-- The part of asset below the test for the row.
unfoldable pub checked_asset : Env → String → Bool → Option AssetRow → Method (String × Manifest)
checked_asset env ref verify none = raise (scheduler "asset_not_found" 404)
checked_asset env ref verify (some a) = do
  named ← lift (is_named ref (validate_manifest env.manifest_ref env.manifest_bytes a.manifest))
  raise_if (not named) (scheduler "asset_hash_mismatch" 400)
  moved ← lift (changed env verify a)
  raise_if moved (scheduler "asset_hash_mismatch" 400)
  pure (a.path, a.manifest)

unfoldable pub asset : Env → String → Bool → Method (String × Manifest)
asset env ref verify = do
  row ← tx (gets (λ s. first (λ (a : AssetRow). a.ref == ref) s.assets))
  checked_asset env ref verify row

-- INSERT OR IGNORE INTO deployments VALUES(?,?)
unfoldable pub add_deployment : DeploymentRow → Journal → Journal
add_deployment d s = record s { deployments = insert_or_ignore (λ x. x.id == d.id) d s.deployments }

unfoldable pub register : Env → Deployment → Method Unit
register env dep = do
  asset env dep.asset_ref true
  tx (
      modify (
        add_deployment
          (record { id = env.deployment_id dep; spec = env.canonical_deployment dep })))

unfoldable pub engine : Method (Option Engine)
engine = tx (gets (λ s. s.engine))

-- INSERT OR REPLACE INTO engine VALUES(1,?), and DELETE FROM engine
unfoldable pub put_engine : Option Engine → Journal → Journal
put_engine value s = record s { engine = value }

unfoldable pub has_exit : String → Journal → Bool
has_exit handle s = exists (λ x. x.handle == handle) s.engine_exits

-- INSERT OR REPLACE INTO engine_exits VALUES(?,?)
unfoldable pub put_exit : Engine → Journal → Journal
put_exit e s = record s {
  engine_exits =
      insert_or_replace (λ x. x.handle == e.handle) (record { handle = e.handle; value = e })
        s.engine_exits;
}

-- The part of set_engine for an engine that has exited.
unfoldable pub keep_exit : Env → Engine → Method Unit
keep_exit env e = do
  known ← gets (has_exit e.handle)
  full ← gets (λ s. leb env.max_commands (length s.engine_exits))
  raise_if (not known && full) (scheduler "executor_exit_metadata_full" 503)
  modify (put_exit e)

unfoldable pub set_engine : Env → Option Engine → Method Unit
set_engine env none = tx (modify (put_engine none))
set_engine env (some e) = tx do
  modify (put_engine (some e))
  when (is_exited e.phase && truthy e.exit_container_id) (keep_exit env e)

abbrev pub exit_value : Option Exit → Option Engine
exit_value none = none
exit_value (some x) = some x.value

unfoldable pub exit_proof : String → Method (Option Engine)
exit_proof handle =
    tx (gets (λ s. exit_value (first (λ (x : Exit). x.handle == handle) s.engine_exits)))
