-- ===== src/Journal/Commands.antt =====
-- The life of a command in the journal: accept, executing, check_fence, cancel, canceled, frame and
-- finish of the class Journal of selfhost_models/executor.py.
use selfhost_models.Prelude.{
  ℕ, ◌+◌, String, Bool, true, false, ◌&&◌, ◌||◌, not, Option, none, some, List, [], ◌∷◌, length,
  max, is, leb, ltb, eqb, ◌==◌, if◌then◌else◌,
}
use selfhost_models.Sql.{first, exists, update, insert, insert_or_ignore, count, total}
use selfhost_models.Action.{
  Result, ok, err, scheduler, type_error, pure, raise, lift, gets, modify, raise_if, ◌>>=◌, ◌>>◌,
}
use selfhost_models.Schema.Deployment.{Deployment}
use selfhost_models.Schema.Text.{codes}
use selfhost_models.Protocol.{Command, Grant, is_execute}
use selfhost_models.Journal.{
  Env, Journal, Engine, CommandRow, CommandState, Frame, Receipt, Document, whole, compacted,
  Method, tx, accepted, executing, find_command, is_accepted, is_executing, is_terminal,
  is_collected, is_ready, whole_command, document_handle, document_kind,
}

-- len(command's canonical text, in bytes)
abbrev pub command_bytes : Env → Command → ℕ
command_bytes env c = length (env.encode (env.canonical_command c))

-- what a command reserves of the journal's storage
abbrev pub reservation_of : Env → Command → ℕ
reservation_of env c = command_bytes env c + c.result_bytes + 4096

-- SELECT spec FROM deployments WHERE id=?, compared with the command's deployment
unfoldable pub is_registered : Env → Deployment → Journal → Bool
is_registered env d s = elim (first (λ r. r.id == env.deployment_id d) s.deployments) [
  | none ↦ false
  | some r ↦ r.spec == env.canonical_deployment d
]

-- if command.deployment: ...
unfoldable pub unregistered : Env → Option Deployment → Journal → Bool
unregistered env none s = false
unregistered env (some d) s = not (is_registered env d s)

-- SELECT COALESCE(SUM(reservation),0) FROM commands
unfoldable pub reserved : Journal → ℕ
reserved s = total (λ (r : CommandRow). r.reservation) s.commands

unfoldable pub is_full : Env → Command → Journal → Bool
is_full env c s =
    leb env.max_commands (length s.commands)
    || ltb env.storage_bytes (reserved s + reservation_of env c)

-- state IN ('accepted','executing','unknown')
abbrev pub is_open : CommandState → Bool
is_open accepted = true
is_open executing = true
is_open CommandState.unknown = true
is_open _ = false

-- an open command of the kind `execute` for an engine
unfoldable pub occupies : String → CommandRow → Bool
occupies handle r =
    is_open r.state
    && (is_execute (document_kind r.command) && is (document_handle r.command) handle)

-- the engine's row against the tuple of handle, deployment, epoch, fence and 'ready'
unfoldable pub serves : Option Engine → Option String → String → String → ℕ → Bool
serves none handle deployment worker_epoch fence = false
serves (some e) handle deployment worker_epoch fence =
    is handle e.handle
    && (e.deployment == deployment
        && (is e.worker_epoch worker_epoch && (eqb e.fence fence && is_ready e.phase)))

-- json_extract(...) = ? with a NULL is no match
abbrev occupies_any : Option String → CommandRow → Bool
occupies_any none r = false
occupies_any (some h) r = occupies h r

-- The part of accept for a command of the kind `execute`; a missing deployment or grant is an
-- attribute of None.
unfoldable pub admit : Env → Command → Option Deployment → Option Grant → Method Unit
admit env c (some d) (some g) = do
  fits ← gets (λ s. serves s.engine c.handle (env.deployment_id d) g.worker_epoch c.fence)
  raise_if (not fits) (scheduler "engine_grant_mismatch" 409)
  crowded ← gets (λ s. leb d.load.capacity (count (occupies_any c.handle) s.commands))
  raise_if crowded (scheduler "executor_capacity" 409)
admit env c _ _ = raise type_error

-- if command.kind == 'execute': ...
unfoldable pub admit_kind : Env → Command → Bool → Method Unit
admit_kind env c true = admit env c c.deployment c.grant
admit_kind env c false = pure tt

-- the row of INSERT INTO commands(id,hash,command,state,reservation,created)
unfoldable pub new_row : Env → ℕ → Command → CommandRow
new_row env now c = record {
  id = c.id;
  hash = env.content_hash c;
  command = whole c;
  state = accepted;
  receipt = none;
  acknowledged = false;
  bytes = 0;
  reservation = reservation_of env c;
  created = now;
  receipt_digest = none;
  terminal_at = none;
  outputs_released = false;
  released_at = none;
  collected_at = none;
  terminal_summary = none;
}

unfoldable pub add_command : CommandRow → Journal → Journal
add_command r s = record s { commands = insert r s.commands }

-- The part of accept below the test for an old row.
unfoldable pub accept_new : Env → ℕ → Command → Option CommandRow → Method Bool
accept_new env now c (some old) = do
  raise_if (not (old.hash == env.content_hash c)) (scheduler "command_conflict" 409)
  pure false
accept_new env now c none = do
  current ← gets (λ s. s.fence)
  raise_if (not (eqb current c.fence)) (scheduler "stale_controller" 409)
  absent ← gets (unregistered env c.deployment)
  raise_if absent (scheduler "deployment_not_registered" 409)
  full ← gets (is_full env c)
  raise_if full (scheduler "executor_journal_full" 503)
  admit_kind env c (is_execute c.kind)
  modify (add_command (new_row env now c))
  pure true

unfoldable pub accept : Env → ℕ → Command → Method Bool
accept env now c = tx do
  raise_if (not (c.authority == env.authority) || not (c.executor == env.executor))
      (scheduler "executor_identity_mismatch" 409)
  old ← gets (find_command c.id)
  accept_new env now c old

-- UPDATE commands SET state=? WHERE id=?
unfoldable pub set_state : String → CommandState → Journal → Journal
set_state cid to s = record s {
  commands = update (λ r. r.id == cid) (λ r. record r { state = to }) s.commands;
}

-- The end of executing: whether the command's fence is the current one.
unfoldable pub begin : String → Bool → Method Bool
begin cid false = do modify (set_state cid CommandState.unknown); pure false
begin cid true = do modify (set_state cid executing); pure true

-- The part of executing for an accepted row.
unfoldable pub executing_accepted : String → CommandRow → Bool → Method Bool
executing_accepted cid r false = pure false
executing_accepted cid r true = do
  c ← lift (whole_command r.command)
  current ← gets (λ s. s.fence)
  begin cid (eqb current c.fence)

unfoldable pub executing_row : String → Option CommandRow → Method Bool
executing_row cid none = pure false
executing_row cid (some r) = executing_accepted cid r (is_accepted r.state)

-- Journal.executing
unfoldable pub try_executing : String → Method Bool
try_executing cid = tx do row ← gets (find_command cid); executing_row cid row

unfoldable pub check_fence : Command → Method Unit
check_fence c = tx do
  current ← gets (λ s. s.fence)
  raise_if (not (eqb current c.fence)) (scheduler "stale_controller" 409)

-- INSERT OR IGNORE INTO cancellations VALUES(?)
unfoldable pub add_cancellation : String → Journal → Journal
add_cancellation cid s = record s {
  cancellations = insert_or_ignore (λ x. x == cid) cid s.cancellations;
}

unfoldable pub cancel : Env → String → String → String → ℕ → Method Unit
cancel env cid authority executor fence = do
  raise_if (not (authority == env.authority) || not (executor == env.executor))
      (scheduler "executor_identity_mismatch" 409)
  tx do
    current ← gets (λ s. s.fence)
    raise_if (not (eqb current fence)) (scheduler "stale_controller" 409)
    known ← gets (λ s. exists (λ r. r.id == cid) s.commands)
    raise_if (not known) (scheduler "command_not_found" 404)
    modify (add_cancellation cid)

unfoldable pub canceled : String → Method Bool
canceled cid = tx (gets (λ s. exists (λ x. x == cid) s.cancellations))

-- SELECT COALESCE(MAX(seq),0)+1 FROM frames WHERE command=?
unfoldable pub last_seq : String → List Frame → ℕ
last_seq cid [] = 0
last_seq cid (f ∷ fs) =
    let rest = last_seq cid fs in if f.command == cid then max f.seq rest else rest

-- the frame's row, and the bytes added to its command's
unfoldable pub add_frame : String → String → ℕ → Journal → Journal
add_frame cid value size s = record s {
  frames =
      insert (record { command = cid; seq = last_seq cid s.frames + 1; value = value }) s.frames;
  commands = update (λ r. r.id == cid) (λ r. record r { bytes = r.bytes + size }) s.commands;
}

-- json.loads(row['command'])['result_bytes']
abbrev result_limit : Document → Result ℕ
result_limit (whole c) = ok c.result_bytes
result_limit (compacted i) = err type_error

-- The part of frame for the command's row..
unfoldable pub frame_row : Env → String → String → Option CommandRow → Method Unit
frame_row env cid value none = raise (scheduler "command_not_executing" 409)
frame_row env cid value (some r) = do
  raise_if (not (is_executing r.state)) (scheduler "command_not_executing" 409)
  limit ← lift (result_limit r.command)
  let size = length (env.encode value)
  raise_if (ltb 1048576 (length (codes value)) || ltb limit (r.bytes + size))
      (scheduler "result_too_large" 503)
  modify (add_frame cid value size)

unfoldable pub frame : Env → String → String → Method Unit
frame env cid value = tx do row ← gets (find_command cid); frame_row env cid value row

unfoldable pub receipt_of : Env → Command → String → Option String → Receipt
receipt_of env c result error = record {
  executor = env.executor;
  authority = env.authority;
  command = c.id;
  hash = env.content_hash c;
  grant = c.grant;
  result = result;
  error = error;
}

-- UPDATE commands SET state=?,receipt=?,receipt_digest=?,terminal_at=? WHERE id=?
unfoldable pub end_command : Env → ℕ → Receipt → CommandState → Journal → Journal
end_command env now x to s = record s {
  commands =
      update (λ r. r.id == x.command)
        (λ r. record r {
          state = to;
          receipt = some x;
          receipt_digest = some (env.receipt_hash x);
          terminal_at = if is_terminal to then some now else none;
        })
        s.commands;
}

-- The part of finish for a row that is not collected, by whether it is terminal.
unfoldable pub finish_open : Env → ℕ → Receipt → CommandState → CommandRow → Bool → Method Receipt
finish_open env now x to r true = do
  raise_if (not (is_terminal to) || not (is r.receipt_digest (env.receipt_hash x)))
      (scheduler "receipt_conflict" 409)
  pure x
finish_open env now x to r false = do modify (end_command env now x to); pure x

unfoldable pub finish_row : Env → ℕ → Receipt → CommandState → Option CommandRow → Method Receipt
finish_row env now x to none = raise (scheduler "command_not_executing" 409)
finish_row env now x to (some r) = do
  raise_if (is_collected r.state) (scheduler "command_not_executing" 409)
  finish_open env now x to r (is_terminal r.state)

unfoldable pub finish : Env → ℕ → Command → String → Option String → CommandState → Method Receipt
finish env now c result error to = do
  let x = receipt_of env c result error
  raise_if (ltb c.result_bytes (length (env.encode result))) (scheduler "result_too_large" 503)
  tx do old ← gets (find_command c.id); finish_row env now x to old
