-- ===== src/Samples/Data.antt =====
-- The data of the examples: an environment whose disk and commits do not fail, deployments, jobs
-- and stores.
use selfhost_models.Prelude.{ℕ, String, Bool, true, false, Option, none, some, List, [], ◌∷◌}
use selfhost_models.Schema.Text.{codes}
use selfhost_models.Schema.Deployment.{Deployment, vllm, default_config}
use selfhost_models.Schema.Chat.{Chat, user, assistant, tool, plain}
use selfhost_models.Schema.Job.{SubmitJob, chat_input, chat}
use selfhost_models.Tables.{
  Job, Controller, Phase, queued, no_result, ready, unloaded, succeeded, available, JobState,
  ResultState,
}
use selfhost_models.Store.Base.{World, Env}

abbrev pub env : Env
env = record {
  clock = 100;
  fault = λ p. none;
  io_fails = λ n. false;
  config = default_config;
  sha256 = λ b. "digest";
  encode = codes;
  canonical_job = λ j. "{}";
  deployment_digest = λ d. "dep";
  canonical_receipt = λ r. r.result;
  canonical_grant = λ g. g.attempt;
  receipt_marker = λ r e. r;
  str = λ n. "3";
}

abbrev pub dep : Deployment
dep = record {
  model = "Qwen/Qwen3.5-4B";
  revision = "851bf6e806efd8d0a36b00ddf55e13ccb7b8cd0a";
  asset_ref = "asset";
  runtime = vllm;
  image = "image";
  runtime_version = "vllm-0.29.0";
  adapter_version = "1";
  quantization = "none";
  load = record {
    dtype = "bfloat16";
    attention = "runtime";
    context = 8192;
    capacity = 2;
    gpu_memory = 800;
    video = false;
    eager = true;
    device = "0";
    host_memory_gib = none;
    shm_gib = 1;
    cpus = 2;
    pids = 128;
  };
}

abbrev pub spec : SubmitJob
spec = record {
  deployment_id = "dep";
  operation = chat;
  input = chat_input (record {
    model = "Qwen/Qwen3.5-4B";
    messages =
        record {
          role = user;
          content = some (plain "hello");
          tool_calls = none;
          tool_call_id = none;
        }
        ∷ [];
    stream = false;
    max_tokens = 16;
    temperature = 0;
    top_p = 1000;
    seed = none;
    stop = none;
    presence_penalty = 0;
    frequency_penalty = 0;
    stream_options = none;
    tools = none;
    tool_choice = none;
    enable_thinking = none;
  });
  urgent = false;
  depends_on = [];
  queue_timeout_seconds = 60;
  execution_timeout_seconds = 60;
  result_description = none;
}

abbrev pub job_of : ℕ → String → String → Bool → JobState → ResultState → Option ℕ → Job
job_of seq id key urgent state result ended = record {
  seq = seq;
  id = id;
  idem = key;
  content_hash = "digest";
  spec_ref = "spec";
  deployment = "dep";
  urgent = urgent;
  created = 10;
  deadline = 500;
  execution_limit = 60;
  state = state;
  cancel_requested = false;
  error = none;
  result_state = result;
  result_ref = none;
  attempt = none;
  ended = ended;
  reservation = 4096;
  result_description = none;
}

abbrev pub first_job : Job
first_job = job_of 1 "job_a" "key-a" false queued no_result none

abbrev pub urgent_job : Job
urgent_job = job_of 2 "job_b" "key-b" true queued no_result none

abbrev pub second_urgent : Job
second_urgent = job_of 3 "job_e" "key-e" true queued no_result none

abbrev pub late_job : Job
late_job = record (job_of 3 "job_c" "key-c" false queued no_result none) { deadline = 90 }

abbrev pub old_job : Job
old_job = job_of 4 "job_d" "key-d" false succeeded available (some 20)

abbrev pub controller_in : Phase → Controller
controller_in p = record {
  epoch = 3;
  phase = p;
  deployment = some "dep";
  worker_epoch = some "worker";
  handle = some "handle";
  reuse_count = 0;
  changed = 0;
  heartbeat = 95;
}

abbrev pub store_of : Phase → List Job → World
store_of p js = record {
  db = record {
    assets = [];
    deployments = record { id = "dep"; spec = dep } ∷ [];
    blocked = [];
    loads = 0;
    generations = 0;
    windows = [];
    artifacts = [];
    pins = [];
    jobs = js;
    job_seq = 4;
    dependencies = [];
    attempts = [];
    leases = [];
    controller = controller_in p;
    events = [];
    event_seq = 0;
    garbage = [];
    cleanup = [];
    binding = none;
    grants = [];
    fleet = none;
    executor_phases = [];
    limits = none;
    retained = [];
  };
  artifact_files = [];
  receipt_files = [];
}

abbrev pub store : World
store = store_of ready (first_job ∷ urgent_job ∷ [])

abbrev pub urgent_store : World
urgent_store = store_of ready (first_job ∷ urgent_job ∷ second_urgent ∷ [])

abbrev pub quiet_store : World
quiet_store = store_of unloaded []

abbrev pub patient_store : World
patient_store = store_of ready (first_job ∷ late_job ∷ [])

-- the header of a file of one sample, and the sample
abbrev pub one_sample : List ℕ
one_sample =
    82 ∷ 73 ∷ 70 ∷ 70 ∷ 38 ∷ 0 ∷ 0 ∷ 0 ∷ 87 ∷ 65 ∷ 86 ∷ 69 ∷ 102 ∷ 109 ∷ 116 ∷ 32 ∷ 16 ∷ 0 ∷ 0 ∷ 0
    ∷ 1 ∷ 0 ∷ 1 ∷ 0 ∷ 128 ∷ 62 ∷ 0 ∷ 0 ∷ 0 ∷ 125 ∷ 0 ∷ 0 ∷ 2 ∷ 0 ∷ 16 ∷ 0 ∷ 100 ∷ 97 ∷ 116 ∷ 97 ∷ 2
    ∷ 0 ∷ 0 ∷ 0 ∷ 7 ∷ 0 ∷ []

-- a chat in which the assistant calls one tool
abbrev pub tool_chat : Chat
tool_chat = record {
  model = "Qwen/Qwen3.5-4B";
  messages =
      record {
        role = user;
        content = some (plain "weather?");
        tool_calls = none;
        tool_call_id = none;
      }
      ∷ record {
        role = assistant;
        content = none;
        tool_calls = some (record { id = "call-1"; name = "weather"; arguments = "{}" } ∷ []);
        tool_call_id = none;
      }
      ∷ record {
        role = tool;
        content = some (plain "sunny");
        tool_calls = none;
        tool_call_id = some "call-1";
      }
      ∷ [];
  stream = false;
  max_tokens = 16;
  temperature = 0;
  top_p = 1000;
  seed = none;
  stop = none;
  presence_penalty = 0;
  frequency_penalty = 0;
  stream_options = none;
  tools = some ("weather" ∷ []);
  tool_choice = none;
  enable_thinking = none;
}
