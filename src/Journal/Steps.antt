-- ===== src/Journal/Steps.antt =====
-- The methods of the class Journal of selfhost_models/executor.py that change it, as steps, and the
-- histories that they make. A step is one call; the requests to the executor and its running
-- commands interleave by calling in any order.
pub mod Rules
pub mod Parts
pub mod Registering
pub mod Running
pub mod Collecting
pub mod Histories
use selfhost_models.Prelude.{ℕ, String, Bool, Option}
use selfhost_models.Schema.Deployment.{Deployment}
use selfhost_models.Protocol.{Command}
use selfhost_models.Protocol.Manifest.{Manifest}
use selfhost_models.Journal.{Env, Journal, Engine, CommandState, Method, terminal}
use selfhost_models.Journal.Engines.{recover, fence, register_asset, register, set_engine}
use selfhost_models.Journal.Commands.{accept, try_executing, cancel, frame, finish}
use selfhost_models.Journal.Custody.{ack, collect}

abbrev pub after : {A : Type 0} → Method A → Journal → Journal
after m s = (m s).1

-- `Step env s t`: a call leads from `s` to `t`. A command is finished as terminal or as unknown.
pub data Step (env : Env) (s : Journal) : Journal → Type 0 where
  recover_step : Step env s (after recover s)
  fence_step : (a e : String) (n : ℕ) → Step env s (after (fence env a e n) s)
  register_asset_step :
      (path : String) (m : Option Manifest) → Step env s (after (register_asset env path m) s)
  register_step : (d : Deployment) → Step env s (after (register env d) s)
  set_engine_step : (e : Option Engine) → Step env s (after (set_engine env e) s)
  accept_step : (now : ℕ) (c : Command) → Step env s (after (accept env now c) s)
  executing_step : (cid : String) → Step env s (after (try_executing cid) s)
  cancel_step : (cid a e : String) (n : ℕ) → Step env s (after (cancel env cid a e n) s)
  frame_step : (cid value : String) → Step env s (after (frame env cid value) s)
  finish_step :
      (now : ℕ) (c : Command) (result : String) (error : Option String)
      → Step env s (after (finish env now c result error terminal) s)
  doubt_step :
      (now : ℕ) (c : Command) (result : String) (error : Option String)
      → Step env s (after (finish env now c result error CommandState.unknown) s)
  ack_step :
      (now : ℕ) (cid expected : String) (release : Bool)
      → Step env s (after (ack now cid expected release) s)
  collect_step : (now value : ℕ) → Step env s (after (collect env now value) s)

-- `Reach env s t`: a history of calls leads from `s` to `t`.
pub data Reach (env : Env) (s : Journal) : Journal → Type 0 where
  here : Reach env s s
  next : {t u : Journal} → Reach env s t → Step env t u → Reach env s u
