-- ===== src/Samples/Remote.antt =====
-- The data of the examples on the executor's side: commands, a journal, a runtime and the
-- controller's table of commands.
use selfhost_models.Prelude.{true, false, Option, none, some, List, [], ◌∷◌, length}
use selfhost_models.Action.{ok}
use selfhost_models.Schema.Text.{codes}
use selfhost_models.Tables.{api_process, legacy, RetentionLimits}
use selfhost_models.Protocol.{Command, CommandKind, Grant, chat_payload, execute, release}
use selfhost_models.Protocol.Manifest.{Manifest}
use selfhost_models.Journal.{
  Env, Journal, Engine, CommandRow, Receipt, accepted, terminal, ready, whole,
}
use selfhost_models.Executor.{Runtime, answered, opened}
use selfhost_models.Retention.{Kept, Outbox}
use selfhost_models.Batch.{Job, Batches, prepared, no_results, prepared_mode}
use selfhost_models.Samples.Data.{dep, tool_chat}

abbrev pub journal_env : Env
journal_env = record {
  authority = "control-1";
  executor = "executor-1";
  max_commands = 10;
  storage_bytes = 100000;
  encode = codes;
  canonical_command = λ c. c.id;
  canonical_deployment = λ d. "dep";
  canonical_identity = λ i. i.id;
  canonical_summary = λ y. y.hash;
  content_hash = λ c. c.id;
  receipt_hash = λ x. x.result;
  result_hash = λ t. t;
  deployment_id = λ d. "dep";
  manifest_ref = λ m. "0";
  manifest_bytes = λ m. 100;
  full_manifest = λ p. ok [];
  same_manifest = λ m n. true;
  resolve = λ p. p;
}

abbrev pub grant_1 : Grant
grant_1 = record {
  authority = "control-1";
  executor = "executor-1";
  fence = 1;
  handle = "selfhost-scheduler-a";
  deployment = "dep";
  worker_epoch = "worker";
  attempt = "0123456789abcdef0123456789abcdef";
  owner = api_process "api";
  kind = legacy;
  started = 1;
  execution_limit = 600;
}

-- an execute command
abbrev pub command_1 : Command
command_1 = record {
  authority = "control-1";
  executor = "executor-1";
  fence = 1;
  id = "0123456789abcdef0123456789abcdef";
  kind = execute;
  handle = some "selfhost-scheduler-a";
  deployment = some dep;
  grant = some grant_1;
  payload = some (chat_payload tool_chat);
  result_bytes = 2048;
}

-- a command about the engine
abbrev pub command_of : CommandKind → Command
command_of k = record command_1 { kind = k; grant = none; payload = none }

-- a release, which needs no deployment
abbrev pub release_1 : Command
release_1 = record (command_of release) { deployment = none; handle = none }

abbrev pub one_file : Manifest
one_file =
    record {
      name = "a/b";
      size = 1;
      sha256 = "0123456789abcdef0123456789abcdef0123456789abcdef0123456789abcdef";
    }
    ∷ []

abbrev pub engine_1 : Engine
engine_1 = record {
  handle = "selfhost-scheduler-a";
  deployment = "dep";
  fence = 1;
  phase = ready;
  spec = dep;
  worker_epoch = some "worker";
  container_id = some "container";
  exit_container_id = none;
}

abbrev pub row_1 : CommandRow
row_1 = record {
  id = command_1.id;
  hash = command_1.id;
  command = whole command_1;
  state = accepted;
  receipt = none;
  acknowledged = false;
  bytes = 0;
  reservation = 6176;
  created = 5;
  receipt_digest = none;
  terminal_at = none;
  outputs_released = false;
  released_at = none;
  collected_at = none;
  terminal_summary = none;
}

abbrev pub receipt_1 : Receipt
receipt_1 = record {
  executor = "executor-1";
  authority = "control-1";
  command = command_1.id;
  hash = command_1.id;
  grant = some grant_1;
  result = "{}";
  error = none;
}

abbrev pub ended_row : CommandRow
ended_row = record row_1 {
  state = terminal;
  receipt = some receipt_1;
  receipt_digest = some "{}";
  terminal_at = some 9;
}

abbrev pub journal_of : List CommandRow → Option Engine → Journal
journal_of rows e = record {
  fence = 1;
  assets = [];
  deployments = [];
  engine = e;
  engine_exits = [];
  commands = rows;
  frames = [];
  cancellations = [];
}

abbrev pub runtime : Runtime
runtime = record {
  inspect = λ e. ok "container";
  has_exited = λ e. ok true;
  prepare_asset = λ d p. ok tt;
  load_engine = λ d p h. ok "worker";
  release_ownership = ok tt;
  set_backend = λ d. ok tt;
  warmup_engine = λ d w. ok tt;
  unload_engine = λ e. ok tt;
  retire_engine = λ e. ok tt;
  execute_payload = λ c. ok (answered "{}" none);
  generate_stream = λ c. ok (opened (record { status_code = 200; lines = [] }));
  raise_for_status = λ n. ok tt;
  decode_audio = λ t. ok [];
  sha256 = λ b. "";
  canonical_outcome = λ x. "{}";
  canonical_text = λ t. t;
}

abbrev pub retention_env : selfhost_models.Retention.Env
retention_env = record {
  clock = 10;
  encode = codes;
  canonical_command = λ c. c.id;
  canonical_grant = λ g. g.attempt;
  canonical_receipt = λ x. x.result;
  content_hash = λ c. c.id;
  receipt_hash = λ x. x.result;
  binding = none;
}

abbrev pub limits : RetentionLimits
limits = record { max_commands = 2; storage_bytes = 20000 }

abbrev pub outbox : Outbox
outbox = record { limits = some limits; rows = []; grants = [] }

-- a command whose outputs were let go
abbrev pub cleared_1 : Kept
cleared_1 = record {
  id = command_1.id;
  hash = command_1.id;
  executor = "executor-1";
  kind = execute;
  command = none;
  grant = none;
  receipt = none;
  receipt_hash = some "{}";
  acked = true;
  release_intent = true;
  released = true;
  collected = true;
  created = 1;
  reservation = 0;
  released_at = some 5;
}

abbrev pub batch_env : selfhost_models.Batch.Env
batch_env = record {
  clock = 5;
  sha256 = λ b. "digest";
  encode = codes;
  nfc = λ t. t;
  is_format = λ c. false;
  casefold = λ t. t;
  casefold_part = λ p. "";
  utf8_bytes = λ p. length p;
  sorted = λ fs. fs;
  scan = λ fs. fs;
  read_archive = λ b. ok (record { path = "a.txt"; content = b } ∷ []);
  contains = λ a b. false;
  fixture_files = λ j. [];
}

-- a prepared job
abbrev pub batch_job : Job
batch_job = record {
  id = "batch_1";
  work_state = prepared;
  result_state = no_results;
  mode = prepared_mode;
  cancel_requested = false;
  attempt_count = 0;
  events = [];
  results = [];
  result_provenance = none;
  fixture = none;
}

abbrev pub batches : Batches
batches = record {
  draft_files = [];
  jobs =
      record {
        id = "batch_1";
        draft_id = "draft_1";
        revision = 1;
        document = batch_job;
        archive = 1 ∷ 2 ∷ [];
      }
      ∷ [];
  result_files = [];
  project_bytes = 0;
}
