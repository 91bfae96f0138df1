-- ===== src/Journal.antt =====
-- The executor's journal: the tables, the transactions and the environment of the class Journal of
-- selfhost_models/executor.py.
pub mod Engines
pub mod Commands
pub mod Custody
pub mod Steps
pub mod Once
pub mod Acceptance
pub mod Restart
pub mod Endings
use selfhost_models.Prelude.{
  ℕ, String, Bool, true, false, Option, none, some, List, [], ◌∷◌, length, ◌==◌,
}
use selfhost_models.Sql.{first}
use selfhost_models.Action.{Result, Action, ok, err, value_error}
use selfhost_models.Schema.Deployment.{Deployment}
use selfhost_models.Protocol.{Command, Grant, CommandKind}
use selfhost_models.Protocol.Manifest.{Manifest}

-- assets(ref, path, manifest)
pub record AssetRow : Type 0 where
  pub ref : String
  pub path : String
  pub manifest : Manifest

-- deployments(id, spec), the spec as its canonical text
pub record DeploymentRow : Type 0 where
  pub id : String
  pub spec : String

pub data EnginePhase : Type 0 where
  loading warming ready unloading exited unknown : EnginePhase

-- the document of the table engine
pub record Engine : Type 0 where
  pub handle : String
  pub deployment : String
  pub fence : ℕ
  pub phase : EnginePhase
  pub spec : Deployment
  pub worker_epoch : Option String
  pub container_id : Option String
  pub exit_container_id : Option String

-- engine_exits(handle, value)
pub record Exit : Type 0 where
  pub handle : String
  pub value : Engine

pub data CommandState : Type 0 where
  accepted executing unknown terminal collected : CommandState

-- the receipt that finish writes; a result is its canonical text
pub record Receipt : Type 0 where
  pub executor : String
  pub authority : String
  pub command : String
  pub hash : String
  pub grant : Option Grant
  pub result : String
  pub error : Option String

-- what compact keeps of a command
pub record Identity : Type 0 where
  pub authority : String
  pub executor : String
  pub fence : ℕ
  pub id : String
  pub kind : CommandKind
  pub handle : Option String
  pub grant : Option Grant
  pub deployment_id : Option String

-- what compact keeps of a receipt
pub record Summary : Type 0 where
  pub executor : String
  pub authority : String
  pub command : String
  pub hash : String
  pub grant : Option Grant
  pub error : Option String
  pub result_hash : String
  pub terminal_at : Option ℕ

-- the column commands.command: a whole command, or what was kept of it
pub data Document : Type 0 where
  whole : Command → Document
  compacted : Identity → Document

pub record CommandRow : Type 0 where
  pub id : String
  pub hash : String
  pub command : Document
  pub state : CommandState
  pub receipt : Option Receipt
  pub acknowledged : Bool
  pub bytes : ℕ
  pub reservation : ℕ
  pub created : ℕ
  pub receipt_digest : Option String
  pub terminal_at : Option ℕ
  pub outputs_released : Bool
  pub released_at : Option ℕ
  pub collected_at : Option ℕ
  pub terminal_summary : Option Summary

-- frames(command, seq, value)
pub record Frame : Type 0 where
  pub command : String
  pub seq : ℕ
  pub value : String

-- The database executor.sqlite3. The row of the table identity is its fence: its other columns
-- equal the journal's own authority and executor.
pub record Journal : Type 0 where
  pub fence : ℕ
  pub assets : List AssetRow
  pub deployments : List DeploymentRow
  pub engine : Option Engine
  pub engine_exits : List Exit
  pub commands : List CommandRow
  pub frames : List Frame
  pub cancellations : List String

-- The arguments of Journal.__init__, the functions of hashlib and json, and what a directory's
-- full_manifest is.
pub record Env : Type 0 where
  pub authority : String
  pub executor : String
  pub max_commands : ℕ
  pub storage_bytes : ℕ
  pub encode : String → List ℕ
  pub canonical_command : Command → String
  pub canonical_deployment : Deployment → String
  pub canonical_identity : Identity → String
  pub canonical_summary : Summary → String
  pub content_hash : Command → String
  pub receipt_hash : Receipt → String
  pub result_hash : String → String
  pub deployment_id : Deployment → String
  pub manifest_ref : Manifest → String
  pub manifest_bytes : Manifest → ℕ
  pub full_manifest : String → Result Manifest
  pub same_manifest : Manifest → Manifest → Bool
  pub resolve : String → String

abbrev pub Method : Type 0 → Type 0
Method A = Action Journal A

-- the end of a transaction that began in `before`: commit, or rollback and raise
abbrev pub finish_tx : {A : Type 0} → Journal → Result A × Journal → Result A × Journal
finish_tx before (ok a, after) = (ok a, after)
finish_tx before (err e, after) = (err e, before)

-- with self.tx() as c: ...
unfoldable pub tx : {A : Type 0} → Method A → Method A
tx body s = finish_tx s (body s)

-- SELECT * FROM commands WHERE id=?
unfoldable pub find_command : String → Journal → Option CommandRow
find_command cid s = first (λ r. r.id == cid) s.commands

-- json.loads(row['command']) validated as a Command
abbrev pub whole_command : Document → Result Command
whole_command (whole c) = ok c
whole_command (compacted i) = err (value_error "invalid command")

abbrev pub is_accepted : CommandState → Bool
is_accepted accepted = true
is_accepted _ = false

abbrev pub is_executing : CommandState → Bool
is_executing executing = true
is_executing _ = false

abbrev pub is_terminal : CommandState → Bool
is_terminal terminal = true
is_terminal _ = false

abbrev pub is_collected : CommandState → Bool
is_collected collected = true
is_collected _ = false

abbrev pub is_unknown : CommandState → Bool
is_unknown unknown = true
is_unknown _ = false

-- json_extract(command, '$.handle')
abbrev pub document_handle : Document → Option String
document_handle (whole c) = c.handle
document_handle (compacted i) = i.handle

-- json_extract(command, '$.kind')
abbrev pub document_kind : Document → CommandKind
document_kind (whole c) = c.kind
document_kind (compacted i) = i.kind

abbrev pub is_exited : EnginePhase → Bool
is_exited exited = true
is_exited _ = false

abbrev pub is_ready : EnginePhase → Bool
is_ready ready = true
is_ready _ = false
