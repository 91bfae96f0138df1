-- ===== src/Tables.antt =====
-- The tables of scheduler.sqlite3 that the scheduler's store reads and writes (Store.__init__ of
-- selfhost_models/scheduler_store.py), with those of fleet_store.py and execution_retention.py
-- that its transactions look at. A column that may be NULL is an `Option`, a REAL time a number
-- of seconds, a foreign JSON column the value that it holds.
use selfhost_models.Prelude.{ℕ, String, Bool, true, false, ◌||◌, Option, List}
use selfhost_models.Schema.Deployment.{Deployment}

pub data JobState : Type 0 where
  queued dispatching running draining unknown : JobState
  succeeded failed canceled expired dependency_failed : JobState

pub data ResultState : Type 0 where
  no_result pending available storage_failed : ResultState

pub data Phase : Type 0 where
  unloaded loading warming ready draining unloading unknown : Phase

pub data LeaseState : Type 0 where
  active detached unknown : LeaseState

pub data Kind : Type 0 where
  job legacy : Kind

pub record Asset : Type 0 where
  pub ref : String
  pub path : String
  pub manifest : String

-- deployments(id, spec)
pub record Registered : Type 0 where
  pub id : String
  pub spec : Deployment

-- blocked_deployments(id, reason)
pub record Blocked : Type 0 where
  pub id : Option String
  pub reason : String

pub record Window : Type 0 where
  pub name : String
  pub opened : ℕ
  pub closed : Option ℕ
  pub start_loads : ℕ
  pub start_generations : ℕ
  pub max_loads : ℕ
  pub max_generations : ℕ
  pub end_loads : Option ℕ
  pub end_generations : Option ℕ

pub record Artifact : Type 0 where
  pub ref : String
  pub size : ℕ
  pub media : String
  pub description : Option String
  pub created : ℕ

pub record Pin : Type 0 where
  pub owner : String
  pub ref : String

pub record Job : Type 0 where
  pub seq : ℕ
  pub id : String
  pub idem : String
  pub content_hash : String
  pub spec_ref : String
  pub deployment : String
  pub urgent : Bool
  pub created : ℕ
  pub deadline : ℕ
  pub execution_limit : ℕ
  pub state : JobState
  pub cancel_requested : Bool
  pub error : Option String
  pub result_state : ResultState
  pub result_ref : Option String
  pub attempt : Option String
  pub ended : Option ℕ
  pub reservation : ℕ
  pub result_description : Option String

pub record Dependency : Type 0 where
  pub job : String
  pub parent : String

pub record Attempt : Type 0 where
  pub id : String
  pub job : String
  pub owner : ℕ
  pub worker_epoch : String
  pub deployment : String
  pub started : ℕ
  pub terminal : Option ℕ
  pub error : Option String

pub record Lease : Type 0 where
  pub id : String
  pub kind : Kind
  pub deployment : String
  pub worker_epoch : String
  pub owner : String
  pub state : LeaseState
  pub created : ℕ

-- the one row of the table controller
pub record Controller : Type 0 where
  pub epoch : ℕ
  pub phase : Phase
  pub deployment : Option String
  pub worker_epoch : Option String
  pub handle : Option String
  pub reuse_count : ℕ
  pub changed : ℕ
  pub heartbeat : ℕ

-- a value in the JSON object of an event's detail
pub data Detail : Type 0 where
  text : String → Detail
  number : ℕ → Detail
  flag : Bool → Detail
  null : Detail

pub record Event : Type 0 where
  pub seq : ℕ
  pub at : ℕ
  pub kind : String
  pub ref : Option String
  pub detail : List (String × Detail)

pub record Garbage : Type 0 where
  pub kind : String
  pub ref : String

-- engine_cleanup(handle, state)
pub record Cleanup : Type 0 where
  pub handle : String
  pub state : Controller

pub record Binding : Type 0 where
  pub control_id : String
  pub executor_id : String
  pub url : String
  pub key_file : String

-- who owns an attempt (a controller's epoch) or a legacy lease (an API process)
pub data Owner : Type 0 where
  controller_epoch : ℕ → Owner
  api_process : String → Owner

-- the envelope of an execution grant
pub record Grant : Type 0 where
  pub authority : String
  pub executor : String
  pub fence : ℕ
  pub handle : Option String
  pub deployment : Option String
  pub worker_epoch : Option String
  pub attempt : String
  pub owner : Owner
  pub kind : Kind
  pub started : ℕ
  pub execution_limit : ℕ

-- execution_grants(attempt, envelope, receipt, acked)
pub record GrantRow : Type 0 where
  pub attempt : String
  pub envelope : Grant
  pub receipt : Option String
  pub acked : Bool

-- fleet_settings
pub record FleetSettings : Type 0 where
  pub enabled : Bool
  pub maintenance : String

-- execution_retention_limits
pub record RetentionLimits : Type 0 where
  pub max_commands : ℕ
  pub storage_bytes : ℕ

-- execution_retention joined with execution_commands, where a text is known by its length
pub record Retained : Type 0 where
  pub id : String
  pub command_bytes : ℕ
  pub receipt_bytes : ℕ
  pub grant_bytes : ℕ
  pub reservation : ℕ
  pub acked : Bool
  pub released : Bool

-- The database. `fleet` and `limits` are none where their table has not been made.
pub record Db : Type 0 where
  pub assets : List Asset
  pub deployments : List Registered
  pub blocked : List Blocked
  pub loads : ℕ
  pub generations : ℕ
  pub windows : List Window
  pub artifacts : List Artifact
  pub pins : List Pin
  pub jobs : List Job
  pub job_seq : ℕ
  pub dependencies : List Dependency
  pub attempts : List Attempt
  pub leases : List Lease
  pub controller : Controller
  pub events : List Event
  pub event_seq : ℕ
  pub garbage : List Garbage
  pub cleanup : List Cleanup
  pub binding : Option Binding
  pub grants : List GrantRow
  pub fleet : Option FleetSettings
  pub executor_phases : List Phase
  pub limits : Option RetentionLimits
  pub retained : List Retained

-- state='queued'
abbrev pub is_queued : JobState → Bool
is_queued queued = true
is_queued _ = false

-- state IN ('dispatching','running','draining')
abbrev pub is_inflight : JobState → Bool
is_inflight dispatching = true
is_inflight running = true
is_inflight JobState.draining = true
is_inflight _ = false

-- state IN ACTIVE
abbrev pub is_active : JobState → Bool
is_active JobState.unknown = true
is_active s = is_inflight s

abbrev pub is_succeeded : JobState → Bool
is_succeeded succeeded = true
is_succeeded _ = false

-- state IN ('failed','canceled','expired','dependency_failed')
abbrev pub is_dead : JobState → Bool
is_dead failed = true
is_dead canceled = true
is_dead expired = true
is_dead dependency_failed = true
is_dead _ = false

-- state IN FINAL
abbrev pub is_final : JobState → Bool
is_final s = is_succeeded s || is_dead s

abbrev pub is_available : ResultState → Bool
is_available available = true
is_available _ = false

abbrev pub is_unloaded : Phase → Bool
is_unloaded unloaded = true
is_unloaded _ = false

abbrev pub is_ready : Phase → Bool
is_ready ready = true
is_ready _ = false

abbrev pub is_loading : Phase → Bool
is_loading loading = true
is_loading _ = false

-- phase in ("loading", "unloading")
abbrev pub is_transition : Phase → Bool
is_transition loading = true
is_transition unloading = true
is_transition _ = false

-- phase in ("unloaded", "ready")
abbrev pub is_idle : Phase → Bool
is_idle unloaded = true
is_idle ready = true
is_idle _ = false

abbrev pub is_job : Kind → Bool
is_job job = true
is_job legacy = false

abbrev pub is_unknown : LeaseState → Bool
is_unknown LeaseState.unknown = true
is_unknown _ = false

abbrev pub is_lease_active : LeaseState → Bool
is_lease_active active = true
is_lease_active _ = false

abbrev pub is_detached : LeaseState → Bool
is_detached detached = true
is_detached _ = false

-- the text of a phase in the column
abbrev pub phase_text : Phase → String
phase_text unloaded = "unloaded"
phase_text loading = "loading"
phase_text warming = "warming"
phase_text ready = "ready"
phase_text Phase.draining = "draining"
phase_text unloading = "unloading"
phase_text Phase.unknown = "unknown"

abbrev pub state_text : JobState → String
state_text queued = "queued"
state_text dispatching = "dispatching"
state_text running = "running"
state_text JobState.draining = "draining"
state_text JobState.unknown = "unknown"
state_text succeeded = "succeeded"
state_text failed = "failed"
state_text canceled = "canceled"
state_text expired = "expired"
state_text dependency_failed = "dependency_failed"

-- the columns that Store.public_job shows
pub record PublicJob : Type 0 where
  pub id : String
  pub seq : ℕ
  pub deployment : String
  pub urgent : Bool
  pub created : ℕ
  pub deadline : ℕ
  pub state : JobState
  pub cancel_requested : Bool
  pub error : Option String
  pub result_state : ResultState
  pub result_ref : Option String
  pub result_description : Option String
  pub attempt : Option String
  pub ended : Option ℕ
