-- ===== src/Schema/Job.antt =====
-- scheduler_schema.py: AudioInput and SubmitJob.
use selfhost_models.Prelude.{ℕ, String, Bool, true, false, ◌&&◌, not, Option, List, length, leb}
use selfhost_models.Schema.Chat.{Chat, has_duplicates}
use selfhost_models.Schema.Deployment.{in_range}

pub record AudioInput : Type 0 where
  pub audio_ref : String
  pub language : Option String
  pub max_tokens : ℕ

pub data Input : Type 0 where
  chat_input : Chat → Input
  audio_input : AudioInput → Input

pub data Operation : Type 0 where
  chat transcribe : Operation

pub record SubmitJob : Type 0 where
  pub deployment_id : String
  pub operation : Operation
  pub input : Input
  pub urgent : Bool
  pub depends_on : List String
  pub queue_timeout_seconds : ℕ
  pub execution_timeout_seconds : ℕ
  pub result_description : Option String

abbrev pub is_chat : Operation → Bool
is_chat chat = true
is_chat transcribe = false

abbrev fits : Operation → Input → Bool
fits chat (chat_input c) = not c.stream
fits transcribe (audio_input a) = true
fits _ _ = false

-- SubmitJob.operation_input and the bounds of the fields: whether the document is accepted
unfoldable pub valid_job : SubmitJob → Bool
unfolding has_duplicates
valid_job s =
    fits s.operation s.input
    && (not (has_duplicates s.depends_on)
        && (leb (length s.depends_on) 32
            && (in_range 1 86400 s.queue_timeout_seconds
                && in_range 1 600 s.execution_timeout_seconds)))
