-- ===== src/Store/Submission.antt =====
-- submit of selfhost_models/scheduler_store.py, and check_admission of fleet_store.py.
pub mod Repetition
use selfhost_models.Prelude.{
  ℕ, ◌+◌, ◌*◌, String, Bool, true, false, ◌&&◌, ◌||◌, not, Option, none, some, List, [], ◌∷◌, map,
  length, is, is_some, leb, ltb, ◌==◌, if◌then◌else◌,
}
use selfhost_models.Sql.{first, exists, insert, count}
use selfhost_models.Action.{
  scheduler, integrity, type_error, pure, raise, lift, gets, row, raise_if, when, ◌>>=◌, ◌>>◌,
}
use selfhost_models.Schema.Text.{full_match, key_char}
use selfhost_models.Schema.Deployment.{Deployment, is_vllm}
use selfhost_models.Schema.Chat.{Chat}
use selfhost_models.Schema.Capabilities.{validate_capabilities}
use selfhost_models.Schema.Job.{SubmitJob, Input, chat_input, audio_input, is_chat}
use selfhost_models.Tables.{
  Db, Job, PublicJob, Dependency, Artifact, Pin, Blocked, queued, no_result, is_queued, text, flag,
}
use selfhost_models.Store.Base.{World, Env, Method, execute, tx, event, deployment, deployment_id}
use selfhost_models.Store.Queue.{public_job}
use selfhost_models.Store.Artifacts.{budget, put}
use Prim.Native.String

-- check_admission(c)
unfoldable pub check_admission : Method Unit
check_admission = do
  closed ←
      gets
        (λ w. elim w.fleet [ none ↦ false | some f ↦ f.enabled && not (f.maintenance == "open") ])
  raise_if closed (scheduler "maintenance_admission_closed" 503)

abbrev pub is_wav : Option Artifact → Bool
is_wav none = false
is_wav (some a) = a.media == "audio/wav"

-- the checks of a job's input against its deployment
unfoldable pub check_input : Deployment → Bool → Input → Method Unit
check_input dep true (chat_input c) = do
  raise_if (not (c.model == dep.model)) (scheduler "model_deployment_mismatch" 400)
  lift (validate_capabilities c "vllm" "qwen3_5" dep.load.video)
check_input dep true (audio_input a) = raise type_error
check_input dep false (chat_input c) = raise type_error
check_input dep false (audio_input a) = do
  found ← gets (λ w. first (λ (x : Artifact). x.ref == a.audio_ref) w.artifacts)
  raise_if (not (is_wav found)) (scheduler "audio_artifact_not_found" 404)

-- for parent in spec.depends_on
unfoldable pub all_known : List String → World → Bool
all_known [] w = true
all_known (p ∷ ps) w = exists (λ (j : Job). j.id == p) w.jobs && all_known ps w

-- What must hold before a job is stored.
unfoldable pub check_submission : Env → SubmitJob → Deployment → Method Unit
check_submission env spec dep = do
  blocked ← gets (λ w. exists (λ (b : Blocked). is b.id (deployment_id env dep)) w.blocked)
  raise_if blocked (scheduler "deployment_blocked" 503)
  raise_if (if is_chat spec.operation then not (is_vllm dep.runtime) else is_vllm dep.runtime)
      (scheduler "unsupported_operation" 400)
  check_input dep (is_chat spec.operation) spec.input
  known ← gets (all_known spec.depends_on)
  raise_if (not known) (scheduler "dependency_not_found" 404)
  full ← gets (λ w. leb env.config.retained_jobs (length w.jobs))
  raise_if full (scheduler "retained_jobs_capacity" 429)
  waiting ← gets (λ w. leb env.config.queue_capacity (count (λ j. is_queued j.state) w.jobs))
  raise_if waiting (scheduler "queue_capacity" 429)

-- INSERT INTO pins VALUES(owner, ref)
unfoldable pub insert_pin : String → String → Method Unit
insert_pin owner ref = do
  taken ← gets (λ w. exists (λ (p : Pin). p.owner == owner && p.ref == ref) w.pins)
  raise_if taken integrity
  execute (λ d. record d { pins = insert (record { owner = owner; ref = ref }) d.pins })

unfoldable pub pin_audio : String → Input → Method Unit
pin_audio jid (chat_input c) = pure tt
pin_audio jid (audio_input a) = insert_pin jid a.audio_ref

unfoldable pub add_dependency : String → String → Db → Db
add_dependency jid p d = record d {
  dependencies = insert (record { job = jid; parent = p }) d.dependencies;
}

-- A row with its place in the table's sequence.
unfoldable pub add_job : Job → Db → Db
add_job j d = record d { jobs = insert j d.jobs; job_seq = j.seq }

-- INSERT INTO dependencies VALUES(jid, parent), for each parent
unfoldable pub insert_dependencies : String → List String → Method Unit
insert_dependencies jid [] = pure tt
insert_dependencies jid (p ∷ ps) = do
  taken ← gets (λ w. exists (λ (e : Dependency). e.job == jid && e.parent == p) w.dependencies)
  raise_if taken integrity
  execute (add_dependency jid p)
  insert_dependencies jid ps

-- INSERT INTO jobs: the id and the key are unique, and AUTOINCREMENT gives the seq.
unfoldable pub insert_job : Job → Method Job
insert_job j = do
  taken ← gets (λ w. exists (λ (x : Job). x.id == j.id || x.idem == j.idem) w.jobs)
  raise_if taken integrity
  seq ← gets (λ w. w.job_seq + 1)
  let numbered : Job = record j { seq = seq }
  execute (add_job numbered)
  pure numbered

-- The row of a new job, with its place not yet given.
unfoldable pub new_job : Env → SubmitJob → String → String → String → String → String → ℕ → Job
new_job env spec jid key hash ref dep reservation = record {
  seq = 0;
  id = jid;
  idem = key;
  content_hash = hash;
  spec_ref = ref;
  deployment = dep;
  urgent = spec.urgent;
  created = env.clock;
  deadline = env.clock + spec.queue_timeout_seconds;
  execution_limit = spec.execution_timeout_seconds;
  state = queued;
  cancel_requested = false;
  error = none;
  result_state = no_result;
  result_ref = none;
  attempt = none;
  ended = none;
  reservation = reservation;
  result_description = spec.result_description;
}

-- The branch of `submit` for a key that is new; `uuid` is the new uuid.
unfoldable pub accept_job :
    Env → SubmitJob → String → List ℕ → String → String → Method (PublicJob × Bool)
accept_job env spec key content hash uuid = do
  check_admission
  dep ← deployment spec.deployment_id
  check_submission env spec dep
  let reservation = env.config.result_bytes * 2 + 4096
  budget env (reservation + length content)
  ref ← put env content "application/json" none false
  let jid = String.◌++◌ "job_" uuid
  j ← insert_job (new_job env spec jid key hash ref (deployment_id env dep) reservation)
  insert_pin jid ref
  when (not (is_chat spec.operation)) (pin_audio jid spec.input)
  insert_dependencies jid spec.depends_on
  execute (
      event env "submitted" (some jid)
        (("deployment", text (deployment_id env dep)) ∷ ("urgent", flag spec.urgent) ∷ []))
  pure (public_job j, true)

-- The branch for a key that is known.
unfoldable pub submit_keyed :
    Env → SubmitJob → String → List ℕ → String → String → Option Job → Method (PublicJob × Bool)
submit_keyed env spec key content hash uuid none = accept_job env spec key content hash uuid
submit_keyed env spec key content hash uuid (some old) = do
  raise_if (not (old.content_hash == hash)) (scheduler "idempotency_conflict" 409)
  pure (public_job old, false)

unfoldable pub submit : Env → SubmitJob → String → String → Method (PublicJob × Bool)
submit env spec key uuid = do
  raise_if (not (full_match key_char 1 128 key)) (scheduler "invalid_idempotency_key" 400)
  let content = env.encode (env.canonical_job spec)
  raise_if (ltb env.config.drain_seconds spec.execution_timeout_seconds)
      (scheduler "execution_limit_exceeds_drain" 400)
  raise_if (ltb env.config.input_bytes (length content)) (scheduler "input_too_large" 413)
  tx env do
    old ← gets (λ w. first (λ (j : Job). j.idem == key) w.jobs)
    submit_keyed env spec key content (env.sha256 content) uuid old
