-- ===== src/Executor.antt =====
-- What the executor does with a command: engine_exited, and below it run, operation and execute, of
-- the class Executor of selfhost_models/executor.py. Its runtime, which drives Docker and the worker, is a
-- parameter: a `Runtime` gives the answers of the calls to it. The calls of one command are made
-- in their order; the lock `lifecycle` keeps two operations apart.
pub mod Operations
pub mod Execution
pub mod Gone
pub mod Exits
use selfhost_models.Prelude.{
  ℕ, ◌+◌, String, Bool, true, false, ◌&&◌, ◌||◌, not, Option, none, some, List, [], ◌∷◌, length, is,
  is_some, truthy, leb, ltb, eqb, ◌==◌, if◌then◌else◌,
}
use selfhost_models.Action.{
  Action, Error, Result, ok, err, scheduler, type_error, pure, raise, lift, gets, raise_if, when,
  ◌>>=◌, ◌>>◌,
}
use selfhost_models.Schema.Deployment.{Deployment, is_vllm}
use selfhost_models.Protocol.{
  Command, CommandKind, Payload, Grant, AudioExecution, chat_payload, audio_payload, prepare, load,
  warmup, execute, unload, retire, release, is_execute, streams,
}
use selfhost_models.Journal.{
  Env, Journal, Engine, EnginePhase, CommandState, Receipt, Method, loading, warming, ready,
  unloading, exited, terminal, is_exited,
}
use selfhost_models.Journal.Engines.{engine, exit_proof, set_engine, asset}
use selfhost_models.Journal.Commands.{check_fence, canceled, try_executing, frame, finish}

-- a line of the worker's event stream: one that is no data, the last one, one that holds an error,
-- and a chunk as the text that is journaled
pub data Line : Type 0 where
  skipped : Line
  done : Line
  failed : Line
  chunk : String → Line

-- what the worker answers: a result with the error it is recorded with, or a video that cannot be
-- decoded
pub data Reply : Type 0 where
  answered : String → Option String → Reply
  video_error : String → Reply

-- the worker's response to a stream
pub record Response : Type 0 where
  pub status_code : ℕ
  pub lines : List Line

pub data Stream : Type 0 where
  opened : Response → Stream
  video_stream_error : String → Stream

pub data Outcome : Type 0 where
  prepared : Outcome
  loaded : String → Outcome
  released : Outcome
  readied : Outcome
  gone : String → Outcome
  retired : Outcome

pub record Runtime : Type 0 where
  pub inspect : Engine → Result String
  pub has_exited : Engine → Result Bool
  pub prepare_asset : Deployment → String → Result Unit
  pub load_engine : Deployment → String → String → Result String
  pub release_ownership : Result Unit
  pub set_backend : Deployment → Result Unit
  pub warmup_engine : Deployment → String → Result Unit
  pub unload_engine : Engine → Result Unit
  pub retire_engine : Engine → Result Unit
  pub execute_payload : Command → Result Reply
  pub generate_stream : Command → Result Stream
  pub raise_for_status : ℕ → Result Unit
  pub decode_audio : String → Result (List ℕ)
  pub sha256 : List ℕ → String
  pub canonical_outcome : Outcome → String
  pub canonical_text : String → String

-- a or b, on documents that may be None
abbrev pub engine_or : Option Engine → Option Engine → Option Engine
engine_or none b = b
engine_or (some a) b = some a

-- an attribute of a value that may be None
unfoldable pub needed : {A : Type 0} → Option A → Method A
needed none = raise type_error
needed (some a) = pure a

-- The end of engine_exited: an exit that the runtime confirms is recorded.
unfoldable pub record_exit : Env → Engine → String → Bool → Method Bool
record_exit env e id false = pure false
record_exit env e id true = do
  set_engine env (some (record e { phase = exited; exit_container_id = some id }))
  pure true

abbrev pub moved : Engine → String → Bool
moved e id = truthy e.container_id && not (is e.container_id id)

-- The part of engine_exited that asks the runtime, unless an exit is already recorded.
unfoldable pub ask_exit : Env → Runtime → Engine → Bool → Method Bool
ask_exit env rt e true = pure true
ask_exit env rt e false = do
  id ← lift (rt.inspect e)
  raise_if (moved e id) (scheduler "engine_identity_unconfirmed" 409)
  confirmed ← lift (rt.has_exited e)
  record_exit env e id confirmed

-- phase == 'exited' and exit_container_id
abbrev pub is_proof : Engine → Bool
is_proof e = is_exited e.phase && truthy e.exit_container_id

unfoldable pub confirm_exit : Env → Runtime → String → String → Option Engine → Method Bool
confirm_exit env rt handle deployment none = raise (scheduler "engine_identity_unconfirmed" 409)
confirm_exit env rt handle deployment (some e) = do
  raise_if (not (e.handle == handle) || not (e.deployment == deployment))
      (scheduler "engine_identity_unconfirmed" 409)
  ask_exit env rt e (is_proof e)

unfoldable pub engine_exited : Env → Runtime → String → String → Method Bool
engine_exited env rt handle deployment = do
  proof ← exit_proof handle
  current ← engine
  confirm_exit env rt handle deployment (engine_or proof current)
