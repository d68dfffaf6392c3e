-- ===== src/Detect.antt =====
-- src/detect/mod.rs: which protocol a request speaks.
pub mod Priority
use mathlib.Core.List.{map}
use maskit_rs.Base.{
  Bool, true, false, not, ◌&&◌, ◌||◌, Option, none, some, List, [], ◌∷◌, Text, codes, contains,
  if◌then◌else◌, ◌>>=◌,
}
use maskit_rs.Str.{to_ascii_lowercase, contains_str}
use maskit_rs.Json.{
  Value, Values, Fields, null, bool, number, string, array, object, no_items, item, as_str, as_bool,
  as_object, get_key, get, contains_key,
}

pub data Protocol : Type 0 where
  chat_completions : Protocol
  responses : Protocol
  anthropic : Protocol
  unknown : Protocol

-- `Protocol::as_str`
unfoldable pub protocol_str : Protocol → Text
protocol_str chat_completions = codes "chat_completions"
protocol_str responses = codes "responses"
protocol_str anthropic = codes "anthropic"
protocol_str unknown = codes "unknown"

abbrev pub is_some_value : Option Value → Bool
is_some_value none = false
is_some_value (some _) = true

-- `matches!(v, Some(Value::Array(m)) if !m.is_empty())`
abbrev pub is_nonempty_array : Option Value → Bool
is_nonempty_array (some (array (item _ _))) = true
is_nonempty_array _ = false

abbrev pub is_string_value : Option Value → Bool
is_string_value (some (string _)) = true
is_string_value _ = false

abbrev pub roles : List Text
roles = map codes ("user" ∷ "assistant" ∷ "system" ∷ "tool" ∷ "function" ∷ "developer" ∷ [])

-- The role of one message is one of a conversation.
unfoldable pub role_valid : Value → Bool
role_valid msg = elim (do v ← get (codes "role") msg; as_str v) [
  | none ↦ false
  | some r ↦ contains roles r
]

-- `let Some(Value::Array(msgs)) = … else …`, then `msgs.first()`
unfoldable pub first_valid : Option Value → Bool
first_valid (some (array (item first _))) = role_valid first
first_valid _ = false

unfoldable pub first_role_valid : Fields → Bool
unfolding first_valid
first_role_valid obj = first_valid (get_key (codes "messages") obj)

-- The tests of the path and of the body that the decision reads.
pub record Shape : Type 0 where
  pub path_messages : Bool
  pub path_responses : Bool
  pub path_completions : Bool
  pub has_messages : Bool
  pub has_input : Bool
  pub has_anthropic_version : Bool
  pub has_system_or_max_tokens : Bool
  pub has_instructions : Bool
  pub has_model_or_prompt : Bool
  pub role_ok : Bool

unfoldable pub shape : Text → Fields → Shape
shape path obj =
    let path_lower = map to_ascii_lowercase path in
    record {
      path_messages = contains_str (codes "/messages") path_lower;
      path_responses = contains_str (codes "/responses") path_lower;
      path_completions =
          contains_str (codes "chat/completions") path_lower
          || contains_str (codes "/completions") path_lower;
      has_messages = is_nonempty_array (get_key (codes "messages") obj);
      has_input = is_some_value (get_key (codes "input") obj);
      has_anthropic_version = is_string_value (get_key (codes "anthropic_version") obj);
      has_system_or_max_tokens =
          contains_key (codes "system") obj || contains_key (codes "max_tokens") obj;
      has_instructions = contains_key (codes "instructions") obj;
      has_model_or_prompt = contains_key (codes "model") obj || contains_key (codes "prompt") obj;
      role_ok = first_role_valid obj;
    }

-- The early returns, in order.
unfoldable pub decide : Shape → Protocol
decide s =
    if s.has_anthropic_version
    then anthropic
    else if s.path_messages && s.has_messages && s.has_system_or_max_tokens && s.role_ok
    then anthropic
    else if s.has_input && not s.has_messages
    then responses
    else if s.path_responses && (s.has_input || s.has_instructions)
    then responses
    else if s.has_messages && not s.has_input && s.role_ok
    then chat_completions
    else if s.path_completions && s.has_model_or_prompt
    then chat_completions
    else unknown

unfoldable pub detect_protocol : Text → Option Value → Protocol
detect_protocol path body = elim (do b ← body; as_object b) [
  | none ↦ unknown
  | some obj ↦ decide (shape path obj)
]

-- `body.stream == true`
unfoldable pub is_stream_request : Option Value → Bool
is_stream_request body = elim (do b ← body; v ← get (codes "stream") b; as_bool v) [
  | none ↦ false
  | some b ↦ b
]
