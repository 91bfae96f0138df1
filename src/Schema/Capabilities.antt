-- ===== src/Schema/Capabilities.antt =====
-- capabilities.py, and find_video of video.py: what a backend and a profile can serve.
use selfhost_models.Prelude.{
  ℕ, String, Bool, true, false, ◌&&◌, ◌||◌, not, Option, none, some, List, [], ◌∷◌, is_some, eqb,
  ◌==◌, if◌then◌else◌,
}
use selfhost_models.Sql.{exists}
use selfhost_models.Action.{Result, ok, err, value_error}
use selfhost_models.Schema.Chat.{
  Chat, Message, Part, content_parts, is_image, is_video, is_tool, non_empty,
}

pub record Capabilities : Type 0 where
  pub text : Bool
  pub stream : Bool
  pub images : Bool
  pub tools : Bool
  pub videos : Bool
  pub thinking : Bool
  pub queue_capacity : ℕ
  pub max_inflight_limit : ℕ
  pub unsupported_parameters : List String

unfoldable pub capabilities : String → String → Bool → Result Capabilities
capabilities backend profile video_enabled =
    let vllm = backend == "vllm" in
    let transformers = backend == "transformers" in
    let qwen = profile == "qwen3_5" in
    if not (vllm || transformers)
    then err (value_error "unsupported backend")
    else if transformers && not qwen
    then err (value_error "Transformers supports only the qwen3_5 profile")
    else if video_enabled && (not vllm || not qwen)
    then err (value_error "video requires vLLM qwen3_5")
    else ok (record {
      text = true;
      stream = true;
      images = vllm && (qwen || profile == "gemma4");
      tools = vllm && (qwen || profile == "gemma4");
      videos = video_enabled;
      thinking = vllm && qwen;
      queue_capacity = 0;
      max_inflight_limit = if transformers then 1 else if video_enabled then 2 else 16;
      unsupported_parameters =
          if transformers then "stop" ∷ "presence_penalty" ∷ "frequency_penalty" ∷ [] else [];
    })

-- find_video(payload) is not None; and the same for images
unfoldable pub has_part : (Part → Bool) → List Message → Bool
unfolding exists
has_part p = exists (λ m. exists p (content_parts m.content))

unfoldable pub uses_tools : Chat → Bool
unfolding exists
uses_tools c =
    non_empty c.tools
    || exists (λ (m : Message). non_empty m.tool_calls || is_tool m.role) c.messages

abbrev refuses_thinking : Capabilities → Bool → Option Bool → Bool
refuses_thinking caps transformers none = false
refuses_thinking caps transformers (some enable) = not caps.thinking && (not transformers || enable)

checked : Chat → String → Result Capabilities → Result Unit
unfolding has_part uses_tools
checked c backend (err e) = err e
checked c backend (ok caps) =
    let transformers = backend == "transformers" in
    if has_part is_image c.messages && not caps.images
      || (uses_tools c && not caps.tools || has_part is_video c.messages && not caps.videos)
    then err (value_error "unsupported_model_capability")
    else if refuses_thinking caps transformers c.enable_thinking
    then err (value_error "unsupported_model_capability")
    else if transformers
        && (is_some c.stop || (not (eqb c.presence_penalty 0) || not (eqb c.frequency_penalty 0)))
    then err (value_error "unsupported_backend_parameter")
    else if transformers && (eqb c.temperature 0 && not (eqb c.top_p 1000))
    then err (value_error "top_p_requires_sampling")
    else ok tt

unfoldable pub validate_capabilities : Chat → String → String → Bool → Result Unit
unfolding checked capabilities
validate_capabilities c backend profile video_enabled =
    checked c backend (capabilities backend profile video_enabled)
