-- ===== src/Schema/Deployment.antt =====
-- scheduler_schema.py: LoadConfig, Deployment and SchedulerConfig. A fraction is a number of
-- thousandths.
use selfhost_models.Prelude.{
  ℕ, ◌^◌, String, Bool, true, false, ◌&&◌, ◌||◌, not, Option, none, some, leb, ltb, eqb, ◌==◌,
}

pub record LoadConfig : Type 0 where
  pub dtype : String
  pub attention : String
  pub context : ℕ
  pub capacity : ℕ
  pub gpu_memory : ℕ
  pub video : Bool
  pub eager : Bool
  pub device : String
  pub host_memory_gib : Option ℕ
  pub shm_gib : ℕ
  pub cpus : ℕ
  pub pids : ℕ

pub data Runtime : Type 0 where
  vllm whisper : Runtime

pub record Deployment : Type 0 where
  pub model : String
  pub revision : String
  pub asset_ref : String
  pub runtime : Runtime
  pub image : String
  pub runtime_version : String
  pub adapter_version : String
  pub quantization : String
  pub load : LoadConfig

abbrev pub is_vllm : Runtime → Bool
is_vllm vllm = true
is_vllm whisper = false

-- a field's `ge` and `le`
abbrev pub in_range : ℕ → ℕ → ℕ → Bool
in_range lo hi n = leb lo n && leb n hi

abbrev optional_in_range : ℕ → ℕ → Option ℕ → Bool
optional_in_range lo hi none = true
optional_in_range lo hi (some n) = in_range lo hi n

abbrev above_8 : Option ℕ → Bool
above_8 none = true
above_8 (some n) = ltb 8 n

-- the bounds and literals of LoadConfig's fields
unfoldable pub load_fields : LoadConfig → Bool
load_fields c =
    (c.dtype == "bfloat16" || c.dtype == "float16")
    && ((c.attention == "runtime" || c.attention == "sdpa")
        && (in_range 128 8192 c.context
            && (in_range 1 16 c.capacity
                && (ltb 0 c.gpu_memory
                    && (leb c.gpu_memory 900
                        && (c.eager
                            && (c.device == "0"
                                && (optional_in_range 1 64 c.host_memory_gib
                                    && (in_range 1 8 c.shm_gib
                                        && (in_range 1 6 c.cpus && in_range 64 512 c.pids))))))))))

-- Deployment.supported: whether the validator returns
unfoldable pub supported : Deployment → Bool
supported d = supported_by d.runtime
  where
    supported_by : Runtime → Bool
    supported_by vllm =
        not (
          not (d.model == "Qwen/Qwen3.5-4B")
          || (not (d.revision == "851bf6e806efd8d0a36b00ddf55e13ccb7b8cd0a")
              || (not (d.runtime_version == "vllm-0.29.0")
                  || (not (d.load.dtype == "bfloat16") || not (d.load.attention == "runtime")))))
        && not (d.load.video && (not (eqb d.load.context 8192) || ltb 2 d.load.capacity))
    supported_by whisper = not (
        not (d.model == "openai/whisper-small")
        || (not (d.revision == "973afd24965f72e36ca33b3055d56a652f456b4d")
            || (not (d.runtime_version == "transformers-5.16.1")
                || (not (d.load.dtype == "float16")
                    || (not (d.load.attention == "sdpa")
                        || (not (eqb d.load.capacity 1)
                            || (d.load.video || above_8 d.load.host_memory_gib)))))))

-- SchedulerConfig
pub record Config : Type 0 where
  pub queue_capacity : ℕ
  pub retained_jobs : ℕ
  pub storage_bytes : ℕ
  pub input_bytes : ℕ
  pub result_bytes : ℕ
  pub retention_seconds : ℕ
  pub reuse_dispatches : ℕ
  pub aging_seconds : ℕ
  pub load_seconds : ℕ
  pub warmup_seconds : ℕ
  pub drain_seconds : ℕ
  pub unload_seconds : ℕ
  pub worker_port : ℕ
  pub max_load_attempts : ℕ
  pub max_generation_attempts : ℕ

abbrev pub default_config : Config
default_config = record {
  queue_capacity = 256;
  retained_jobs = 4096;
  storage_bytes = 1024 ^ 3;
  input_bytes = 25165824;
  result_bytes = 2097152;
  retention_seconds = 604800;
  reuse_dispatches = 3;
  aging_seconds = 60;
  load_seconds = 300;
  warmup_seconds = 180;
  drain_seconds = 600;
  unload_seconds = 60;
  worker_port = 18089;
  max_load_attempts = 10000;
  max_generation_attempts = 100000;
}
