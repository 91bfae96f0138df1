-- ===== src/Protocol.antt =====
-- execution_protocol.py: the grant and the command that a controller sends to an executor, and
-- the checks that make a document a command.
pub mod Manifest
pub mod Grants
use selfhost_models.Prelude.{
  ℕ, ◌+◌, String, Bool, true, false, ◌&&◌, ◌||◌, not, Option, none, some, List, ◌∷◌, [], length, is,
  is_some, leb, eqb, ◌==◌, if◌then◌else◌,
}
use selfhost_models.Action.{Result, ok, err, value_error}
use selfhost_models.Schema.Text.{codes, strip, all_in, hex, full_match, identity_char}
use selfhost_models.Schema.Chat.{Chat}
use selfhost_models.Schema.Deployment.{Deployment, is_vllm, in_range}
use selfhost_models.Tables.{Owner, Kind, is_job}

pub record Grant : Type 0 where
  pub authority : String
  pub executor : String
  pub fence : ℕ
  pub handle : String
  pub deployment : String
  pub worker_epoch : String
  pub attempt : String
  pub owner : Owner
  pub kind : Kind
  pub started : ℕ
  pub execution_limit : ℕ

pub record AudioExecution : Type 0 where
  pub model : String
  pub audio_base64 : String
  pub audio_sha256 : String
  pub language : Option String
  pub max_tokens : ℕ

pub data CommandKind : Type 0 where
  prepare load warmup execute unload retire release : CommandKind

pub data Payload : Type 0 where
  chat_payload : Chat → Payload
  audio_payload : AudioExecution → Payload

pub record Command : Type 0 where
  pub authority : String
  pub executor : String
  pub fence : ℕ
  pub id : String
  pub kind : CommandKind
  pub handle : Option String
  pub deployment : Option Deployment
  pub grant : Option Grant
  pub payload : Option Payload
  pub result_bytes : ℕ

abbrev pub is_execute : CommandKind → Bool
is_execute execute = true
is_execute _ = false

abbrev pub is_release : CommandKind → Bool
is_release release = true
is_release _ = false

-- kind in ("prepare", "release")
abbrev pub needs_no_handle : CommandKind → Bool
needs_no_handle prepare = true
needs_no_handle release = true
needs_no_handle _ = false

abbrev pub is_chat_payload : Payload → Bool
is_chat_payload (chat_payload c) = true
is_chat_payload (audio_payload a) = false

abbrev pub payload_model : Payload → String
payload_model (chat_payload c) = c.model
payload_model (audio_payload a) = a.model

-- payload.stream of a chat
abbrev pub streams : Payload → Bool
streams (chat_payload c) = c.stream
streams (audio_payload a) = false

-- a == b on truth values
abbrev pub agree : Bool → Bool → Bool
agree true b = b
agree false b = not b

-- ^[0-9a-f]{32}(?:[0-9a-f]{32})?$
unfoldable pub command_id : String → Bool
command_id text = let cs = codes text in all_in hex cs && (eqb (length cs) 32 || eqb (length cs) 64)

-- [a-z0-9-]
abbrev handle_char : ℕ → Bool
handle_char c = in_range b'a' b'z' c || (in_range b'0' b'9' c || eqb c b'-')

-- ^selfhost-scheduler-[a-z0-9-]{1,100}$
unfoldable pub handle_name : String → Bool
handle_name text = elim (strip (codes "selfhost-scheduler-") (codes text)) [
  | none ↦ false
  | some cs ↦ all_in handle_char cs && in_range 1 100 (length cs)
]

abbrev optional_handle : Option String → Bool
optional_handle none = true
optional_handle (some h) = handle_name h

-- the bounds and patterns of Command's own fields
unfoldable pub command_fields : Command → Bool
unfolding handle_name
command_fields c =
    full_match identity_char 8 80 c.authority
    && (full_match identity_char 8 80 c.executor
        && (leb 1 c.fence
            && (command_id c.id
                && (optional_handle c.handle && in_range 1024 16777216 c.result_bytes))))

-- the bounds and patterns of Grant's fields whose type does not give them
unfoldable pub grant_fields : Grant → Bool
grant_fields g =
    full_match identity_char 8 80 g.authority
    && (full_match identity_char 8 80 g.executor
        && (leb 1 g.fence
            && (handle_name g.handle
                && (in_range 1 128 (length (codes g.worker_epoch))
                    && (command_id g.attempt && in_range 1 1200 g.execution_limit)))))

-- the grant's fields that name the command and its deployment
unfoldable pub grant_matches : (Deployment → String) → Command → Grant → Deployment → Bool
grant_matches id c g d =
    g.authority == c.authority
    && (g.executor == c.executor
        && (eqb g.fence c.fence
            && (is c.handle g.handle && (g.deployment == id d && g.attempt == c.id))))

-- The branch of valid_command for a command of the kind `execute`.
unfoldable pub valid_execution :
    (Deployment → String)
    → Command
    → Option Grant
    → Option Payload
    → Option Deployment
    → Result Unit
valid_execution id c (some g) (some p) (some d) =
    if not (grant_matches id c g d)
    then err (value_error "grant mismatch")
    else if not (agree (is_vllm d.runtime) (is_chat_payload p)) || not (payload_model p == d.model)
    then err (value_error "payload deployment mismatch")
    else if streams p && is_job g.kind
    then err (value_error "durable jobs cannot stream")
    else ok tt
valid_execution id c _ _ _ = err (value_error "execution grant and payload required")

-- Command.valid_command, where `id` is Deployment.id
unfoldable pub valid_command : (Deployment → String) → Command → Result Unit
valid_command id c =
    if not (is_release c.kind) && not (is_some c.deployment)
    then err (value_error "deployment required")
    else if not (needs_no_handle c.kind) && not (is_some c.handle)
    then err (value_error "handle required")
    else if is_execute c.kind
    then valid_execution id c c.grant c.payload c.deployment
    else if is_some c.payload || is_some c.grant
    then err (value_error "unexpected execution payload")
    else ok tt
