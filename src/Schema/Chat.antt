-- ===== src/Schema/Chat.antt =====
-- schema.py: a chat request and what its validators check between its fields. The texts of
-- images, videos and tools are kept as they are; a fraction is a number of thousandths, and a
-- penalty, which may be negative, is known by its distance from zero.
pub mod Tools
use selfhost_models.Prelude.{
  ℕ, ◌+◌, String, Bool, true, false, ◌&&◌, ◌||◌, not, Option, none, some, List, [], ◌∷◌, map,
  is_some, ltb, eqb, ◌==◌, ◌++◌, if◌then◌else◌,
}
use selfhost_models.Sql.{exists, delete, total}

pub data Part : Type 0 where
  text image_url video_url : String → Part

pub data Content : Type 0 where
  plain : String → Content
  parts : List Part → Content

pub data Role : Type 0 where
  system user assistant tool : Role

pub record ToolCall : Type 0 where
  pub id : String
  pub name : String
  pub arguments : String

pub record Message : Type 0 where
  pub role : Role
  pub content : Option Content
  pub tool_calls : Option (List ToolCall)
  pub tool_call_id : Option String

pub record Chat : Type 0 where
  pub model : String
  pub messages : List Message
  pub stream : Bool
  pub max_tokens : ℕ
  pub temperature : ℕ
  pub top_p : ℕ
  pub seed : Option ℕ
  pub stop : Option (List String)
  pub presence_penalty : ℕ
  pub frequency_penalty : ℕ
  pub stream_options : Option Bool
  pub tools : Option (List String)
  pub tool_choice : Option String
  pub enable_thinking : Option Bool

abbrev pub is_assistant : Role → Bool
is_assistant assistant = true
is_assistant _ = false

abbrev pub is_tool : Role → Bool
is_tool tool = true
is_tool _ = false

abbrev pub is_user : Role → Bool
is_user user = true
is_user _ = false

-- a list that may be None, as a condition
abbrev pub non_empty : {A : Type 0} → Option (List A) → Bool
non_empty none = false
non_empty (some []) = false
non_empty (some (x ∷ xs)) = true

abbrev pub items : {A : Type 0} → Option (List A) → List A
items none = []
items (some xs) = xs

abbrev pub content_parts : Option Content → List Part
content_parts (some (parts ps)) = ps
content_parts _ = []

abbrev is_list : Option Content → Bool
is_list (some (parts ps)) = true
is_list _ = false

abbrev pub is_image : Part → Bool
is_image (image_url u) = true
is_image _ = false

abbrev pub is_video : Part → Bool
is_video (video_url u) = true
is_video _ = false

abbrev differ : Bool → Bool → Bool
differ true b = not b
differ false b = b

-- Message.valid_role: whether the validator returns
unfoldable pub valid_role : Message → Bool
valid_role m =
    not (non_empty m.tool_calls && not (is_assistant m.role))
    && (not (differ (is_tool m.role) (is_some m.tool_call_id))
        && (not (not (is_some m.content) && not (non_empty m.tool_calls))
            && not (is_list m.content && not (is_user m.role))))

abbrev count_parts : (Part → Bool) → List Part → ℕ
count_parts p [] = 0
count_parts p (x ∷ xs) = (if p x then 1 else 0) + count_parts p xs

-- sum(isinstance(p, ...) for m in messages ... for p in m.content)
unfoldable pub parts_like : (Part → Bool) → List Message → ℕ
unfolding total
parts_like p = total (λ m. count_parts p (content_parts m.content))

abbrev has : String → List String → Bool
has x xs = exists (λ y. y == x) xs

unfoldable pub has_duplicates : List String → Bool
unfolding exists
has_duplicates [] = false
has_duplicates (x ∷ xs) = has x xs || has_duplicates xs

-- The loop over the messages, with the set of calls that wait for a result. `some` is the set at
-- the end; `none` is a ValueError.
after_result : List String → Option String → Option (List String)
unfolding exists delete
after_result pending none = elim pending [ [] ↦ some [] | _ ↦ none ]
after_result pending (some id) =
    if id == ""
    then elim pending [ [] ↦ some [] | _ ↦ none ]
    else if has id pending
    then some (delete (λ x. x == id) pending)
    else none

after_calls : Message → Option (List String) → Option (List String)
unfolding has_duplicates
after_calls m none = none
after_calls m (some pending) =
    let ids = map (λ (c : ToolCall). c.id) (items m.tool_calls) in
    if not (non_empty m.tool_calls)
    then some pending
    else if has_duplicates ids
    then none
    else some (ids ++ pending)

unfoldable pub after_message : List String → Message → Option (List String)
unfolding after_result after_calls
after_message pending m = after_calls m (after_result pending m.tool_call_id)

unfoldable pub after_messages : List String → List Message → Option (List String)
unfolding after_message
after_messages pending [] = some pending
after_messages pending (m ∷ ms) = elim (after_message pending m) [
  | none ↦ none
  | some next ↦ after_messages next ms
]

abbrev nothing_pending : Option (List String) → Bool
nothing_pending (some []) = true
nothing_pending _ = false

-- Chat.options_require_stream: whether the validator returns
unfoldable pub options_require_stream : Chat → Bool
unfolding parts_like after_messages
options_require_stream c =
    let images = parts_like is_image c.messages in
    let videos = parts_like is_video c.messages in
    not (is_some c.stream_options && not c.stream)
    && (not (is_some c.tool_choice && not (non_empty c.tools))
        && (not (ltb 1 images)
            && (not (ltb 1 videos || (not (eqb videos 0) && not (eqb images 0)))
                && nothing_pending (after_messages [] c.messages))))
