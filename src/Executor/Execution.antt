-- ===== src/Executor/Execution.antt =====
-- The execution of a command: execute and run of the class Executor of selfhost_models/executor.py.
use selfhost_models.Prelude.{
  ℕ, ◌+◌, String, Bool, true, false, ◌||◌, not, Option, none, some, List, [], ◌∷◌, length, leb, ltb,
  eqb, ◌==◌, if◌then◌else◌,
}
use selfhost_models.Action.{
  Error, Result, ok, err, scheduler, type_error, pure, raise, lift, ◌>>=◌, ◌>>◌,
}
use selfhost_models.Schema.Deployment.{Deployment, is_vllm}
use selfhost_models.Protocol.{
  Command, Payload, AudioExecution, chat_payload, audio_payload, is_execute, streams,
}
use selfhost_models.Journal.{Env, Journal, CommandState, Method, terminal}
use selfhost_models.Journal.Commands.{check_fence, canceled, try_executing, frame, finish}
use selfhost_models.Executor.{
  Line, Reply, Response, Runtime, Stream, answered, chunk, done, failed, needed, opened, skipped,
  video_error, video_stream_error,
}
use selfhost_models.Executor.Operations.{operation}

-- The loop over the lines of a stream; each chunk is journaled.
unfoldable pub read_lines : Env → Runtime → String → List Line → Method (String × Option String)
read_lines env rt cid [] = raise (scheduler "worker_stream_incomplete" 503)
read_lines env rt cid (skipped ∷ ls) = read_lines env rt cid ls
read_lines env rt cid (done ∷ ls) = pure (rt.canonical_text "stream_terminal", none)
read_lines env rt cid (failed ∷ ls) = raise (scheduler "worker_stream_failed" 503)
read_lines env rt cid (chunk value ∷ ls) = do frame env cid value; read_lines env rt cid ls

-- status_code in (400, 404, 422)
abbrev pub is_rejection : ℕ → Bool
is_rejection n = eqb n 400 || (eqb n 404 || eqb n 422)

unfoldable pub read_response :
    Env → Runtime → String → Response → Bool → Method (String × Option String)
read_response env rt cid r true = pure (rt.canonical_text "worker_rejected", some "worker_rejected")
read_response env rt cid r false = do
  lift (rt.raise_for_status r.status_code)
  read_lines env rt cid r.lines

-- `except VideoError as exc: return ...`
unfoldable pub read_stream : Env → Runtime → String → Stream → Method (String × Option String)
read_stream env rt cid (opened r) = read_response env rt cid r (is_rejection r.status_code)
read_stream env rt cid (video_stream_error code) = pure (rt.canonical_text code, some code)

-- `except SchedulerError as exc: if exc.code == 'canceled_before_gpu': return ...`
abbrev pub uncanceled :
    Runtime → Result (String × Option String) × Journal → Result (String × Option String) × Journal
uncanceled rt (err (scheduler code status), s) =
    if code == "canceled_before_gpu"
    then (ok (rt.canonical_text code, some code), s)
    else (err (scheduler code status), s)
uncanceled rt r = r

unfoldable pub execute_stream : Env → Runtime → Command → Method (String × Option String)
execute_stream env rt c s =
    uncanceled rt ((do r ← lift (rt.generate_stream c); read_stream env rt c.id r) s)

abbrev pub reply_value : Runtime → Reply → String × Option String
reply_value rt (answered result error) = (result, error)
reply_value rt (video_error code) = (rt.canonical_text code, some code)

-- The part of execute that asks the worker, by whether the payload streams.
unfoldable pub execute_worker : Env → Runtime → Command → Bool → Method (String × Option String)
execute_worker env rt c true = execute_stream env rt c
execute_worker env rt c false = do r ← lift (rt.execute_payload c); pure (reply_value rt r)

unfoldable pub bad_audio : Runtime → AudioExecution → List ℕ → Bool
bad_audio rt a raw = ltb 1048576 (length raw) || not (rt.sha256 raw == a.audio_sha256)

unfoldable pub checked_audio : Env → Runtime → Command → Bool → Method (String × Option String)
checked_audio env rt c true =
    pure (rt.canonical_text "invalid_audio_digest", some "invalid_audio_digest")
checked_audio env rt c false = execute_worker env rt c false

-- The part of execute below the test of the deadline, by the deployment's runtime.
unfoldable pub execute_runtime :
    Env → Runtime → Command → Bool → Payload → Method (String × Option String)
execute_runtime env rt c true p = execute_worker env rt c (streams p)
execute_runtime env rt c false (audio_payload a) = do
  raw ← lift (rt.decode_audio a.audio_base64)
  checked_audio env rt c (bad_audio rt a raw)
execute_runtime env rt c false (chat_payload p) = raise type_error

unfoldable pub execute_timely :
    Env → Runtime → Command → Deployment → Payload → Bool → Method (String × Option String)
execute_timely env rt c dep p true =
    pure (rt.canonical_text "canceled_before_gpu", some "canceled_before_gpu")
execute_timely env rt c dep p false = execute_runtime env rt c (is_vllm dep.runtime) p

-- Executor.execute, at the time `now`
unfoldable pub execute_command : Env → Runtime → ℕ → Command → Method (String × Option String)
execute_command env rt now c = do
  dep ← needed c.deployment
  g ← needed c.grant
  p ← needed c.payload
  stopped ← canceled c.id
  execute_timely env rt c dep p (leb (g.started + g.execution_limit) now || stopped)

-- `result, error = await self.operation(command), None`, behind the test of the fence
unfoldable pub lifecycle : Env → Runtime → Command → Method (String × Option String)
lifecycle env rt c = do
  check_fence c
  out ← operation env rt c
  pure (rt.canonical_outcome out, none)

unfoldable pub work : Env → Runtime → ℕ → Command → Bool → Method (String × Option String)
work env rt now c true = execute_command env rt now c
work env rt now c false = lifecycle env rt c

-- getattr(exc, 'code', 'execution_unconfirmed')
abbrev pub error_code : Error → String
error_code (scheduler code status) = code
error_code e = "execution_unconfirmed"

-- Any exception of the work leaves the command unknown.
abbrev pub settled :
    Runtime → Result (String × Option String) → String × Option String × CommandState
settled rt (ok (result, error)) = (result, error, terminal)
settled rt (err e) = (rt.canonical_text "null", some (error_code e), CommandState.unknown)

unfoldable pub run_started : Env → Runtime → ℕ → ℕ → Command → Bool → Method Unit
run_started env rt now later c false s = (ok tt, s)
run_started env rt now later c true s =
    let (r, s') = work env rt now c (is_execute c.kind) s in
    let (result, error, to) = settled rt r in (finish env later c result error to >> pure tt) s'

-- Executor.run, with the times at which execute and finish read the clock
unfoldable pub run : Env → Runtime → ℕ → ℕ → Command → Method Unit
run env rt now later c = do started ← try_executing c.id; run_started env rt now later c started
