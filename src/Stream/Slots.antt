-- ===== src/Stream/Slots.antt =====
-- src/stream/slots.rs: the texts of a streamed event that grow from event to event, each with the
-- channel that keeps it apart from the others, and the channels that an event ends.
pub mod Write
pub mod RoundTrip
use maskit_rs.Base.{
  ℕ, zero, suc, ◌+◌, Bool, true, false, not, ◌&&◌, ◌||◌, Option, none, some, List, [], ◌∷◌, ◌++◌,
  map, Text, codes, contains, is_empty, ltb, if◌then◌else◌, ◌>>=◌,
}
use maskit_rs.Base.Map.{text_eq}
use maskit_rs.Str.{show_nat, strip_prefix, ends_with, contains_str, trim}
use maskit_rs.Json.{
  Value, Values, Fields, null, bool, number, string, array, object, no_items, item, no_fields,
  field, as_str, as_u64, as_bool, as_array, as_object, get, get_key, contains_key,
}

-- (channel, text, whether the text is restored with JSON escapes)
abbrev pub Slot : Type 0
Slot = Text × Text × Bool

unfoldable pub or_else : ℕ → Option ℕ → ℕ
or_else d none = d
or_else d (some n) = n

-- `v.get(k).and_then(Value::as_u64).unwrap_or(d)`
unfoldable pub u64_or : Text → ℕ → Value → ℕ
unfolding or_else
u64_or k d v = or_else d (do n ← get k v; as_u64 n)

unfoldable pub choice_index : Value → ℕ → ℕ
unfolding u64_or
choice_index choice position = u64_or (codes "index") position choice

unfoldable pub response_channel : Value → Text → Text
response_channel event kind =
    let ci = u64_or (codes "content_index") 0 event in
    let oi = u64_or (codes "output_index") 0 event in
    if ltb 0 ci
    then b'r' ∷ show_nat oi ++ b'.' ∷ show_nat ci ++ b'.' ∷ kind
    else b'r' ∷ show_nat oi ++ b'.' ∷ kind

abbrev pub generic_channel_prefix : ℕ
generic_channel_prefix = b'x'

unfoldable pub chat_known_delta_fields : List Text
chat_known_delta_fields = map codes (
    "content" ∷ "reasoning_content" ∷ "reasoning" ∷ "reasoning_details" ∷ "tool_calls"
    ∷ "function_call" ∷ "role" ∷ "type" ∷ "index" ∷ [])

unfoldable pub anthropic_known_delta_fields : List Text
anthropic_known_delta_fields = map codes ("text" ∷ "thinking" ∷ "partial_json" ∷ "type" ∷ [])

unfoldable pub responses_known_delta_types : List Text
responses_known_delta_types = map codes (
    "response.output_text.delta" ∷ "response.reasoning_summary_text.delta"
    ∷ "response.reasoning_text.delta" ∷ "response.function_call_arguments.delta" ∷ [])

-- The fields of an Ollama message that get no generic channel.
unfoldable pub ollama_known_fields : List Text
ollama_known_fields = map codes ("content" ∷ "thinking" ∷ "role" ∷ "tool_calls" ∷ [])

-- `field.strip_prefix(GENERIC_CHANNEL_PREFIX)`
unfoldable pub is_generic_field : Text → Option Text
is_generic_field name = strip_prefix (generic_channel_prefix ∷ []) name

-- `if let Some(s) = v.and_then(Value::as_str) { slots.push((channel, s, escaped)) }`
unfoldable pub text_slot : Text → Bool → Option Value → List Slot
text_slot channel escaped (some (string s)) = (channel, s, escaped) ∷ []
text_slot channel escaped _ = []

-- The string fields of a container that are not known: each has a channel of its own.
unfoldable pub generic_slots : Text → List Text → Fields → List Slot
unfolding text_slot
generic_slots channel known no_fields = []
generic_slots channel known (field k v fs) =
    let rest = generic_slots channel known fs in
    if contains known k
    then rest
    else text_slot (channel ++ generic_channel_prefix ∷ k) false (some v) ++ rest

-- `reasoning_details`: one channel for each place
unfoldable pub detail_slots : Text → ℕ → Values → List Slot
unfolding text_slot
detail_slots channel n no_items = []
detail_slots channel n (item v vs) =
    text_slot (channel ++ codes "rd" ++ show_nat n) false (get (codes "text") v)
    ++ detail_slots channel (suc n) vs

-- `tool_calls`: one channel for each `index`, the place where there is none
unfoldable pub tool_slots : Text → ℕ → Values → List Slot
unfolding text_slot
tool_slots channel tidx no_items = []
tool_slots channel tidx (item tc tcs) =
    let slot_no = u64_or (codes "index") tidx tc in
    let args = (do f ← get (codes "function") tc; get (codes "arguments") f) in
    text_slot (channel ++ codes "tool" ++ show_nat slot_no) true args
    ++ tool_slots channel (suc tidx) tcs

unfoldable pub no_values : Option Values → Values
no_values none = no_items
no_values (some vs) = vs

-- The slots of one `delta` object of a choice.
unfoldable pub chat_delta_slots : Text → Fields → List Slot
unfolding text_slot generic_slots detail_slots tool_slots no_values
chat_delta_slots channel d =
    text_slot (channel ++ codes "content") false (get_key (codes "content") d)
    ++ text_slot (channel ++ codes "reason") false (get_key (codes "reasoning_content") d)
    ++ text_slot (channel ++ codes "reason2") false (get_key (codes "reasoning") d)
    ++ detail_slots channel 0 (no_values (do v ← get_key (codes "reasoning_details") d; as_array v))
    ++ tool_slots channel 0 (no_values (do v ← get_key (codes "tool_calls") d; as_array v))
    ++ text_slot (channel ++ codes "fcall") true
        (do f ← get_key (codes "function_call") d; get (codes "arguments") f)
    ++ generic_slots channel chat_known_delta_fields d

unfoldable pub fields_or_none : Option Value → Fields
fields_or_none (some (object fs)) = fs
fields_or_none _ = no_fields

unfoldable pub choice_channel : ℕ → Text
choice_channel idx = b'c' ∷ show_nat idx ++ b'.' ∷ []

unfoldable pub choice_slots : Value → ℕ → List Slot
unfolding chat_delta_slots fields_or_none choice_index choice_channel
choice_slots c position =
    let channel = choice_channel (choice_index c position) in
    chat_delta_slots channel (fields_or_none (get (codes "delta") c))
    ++ text_slot (channel ++ codes "text") false (get (codes "text") c)

unfoldable pub choices_slots : ℕ → Values → List Slot
unfolding choice_slots
choices_slots position no_items = []
choices_slots position (item c cs) = choice_slots c position ++ choices_slots (suc position) cs

unfoldable pub anthropic_channel : ℕ → Text
anthropic_channel blk = b'a' ∷ show_nat blk ++ b'.' ∷ []

unfoldable pub anthropic_slots : ℕ → Fields → List Slot
unfolding text_slot generic_slots anthropic_channel
anthropic_slots blk d =
    let channel = anthropic_channel blk in
    text_slot (channel ++ codes "text") false (get_key (codes "text") d)
    ++ text_slot (channel ++ codes "think") false (get_key (codes "thinking") d)
    ++ text_slot (channel ++ codes "pj") true (get_key (codes "partial_json") d)
    ++ generic_slots channel anthropic_known_delta_fields d

-- The slot of an event of the Responses API, by its type.
unfoldable pub response_slots : Value → Text → Option Value → List Slot
unfolding text_slot response_channel
response_slots event etype delta =
    if text_eq etype (codes "response.output_text.delta")
    then text_slot (response_channel event (codes "text")) false delta
    else if text_eq etype (codes "response.reasoning_summary_text.delta")
        || text_eq etype (codes "response.reasoning_text.delta")
    then text_slot (response_channel event (codes "reason")) false delta
    else if text_eq etype (codes "response.function_call_arguments.delta")
    then text_slot (response_channel event (codes "args")) true delta
    else if not (is_empty etype)
        && ends_with (codes ".delta") etype
        && not (contains responses_known_delta_types etype)
    then text_slot (response_channel event (codes "gen") ++ b'.' ∷ generic_channel_prefix ∷ etype)
        (contains_str (codes "arguments") etype || contains_str (codes "tool") etype) delta
    else []

unfoldable pub message_slots : Fields → List Slot
unfolding text_slot generic_slots
message_slots msg =
    text_slot (codes "o.message.content") false (get_key (codes "content") msg)
    ++ text_slot (codes "o.message.thinking") false (get_key (codes "thinking") msg)
    ++ generic_slots (codes "o.message.") ollama_known_fields msg

unfoldable pub ollama_slots : Fields → List Slot
unfolding message_slots fields_or_none
ollama_slots obj =
    if contains_key (codes "done") obj
    then message_slots (fields_or_none (get_key (codes "message") obj))
      ++ text_slot (codes "o.response") false (get_key (codes "response") obj)
      ++ text_slot (codes "o.thinking") false (get_key (codes "thinking") obj)
    else []

-- `obj.get("type").and_then(Value::as_str).unwrap_or("")`
unfoldable pub event_type : Fields → Text
event_type obj = elim (do v ← get_key (codes "type") obj; as_str v) [ none ↦ [] | some t ↦ t ]

unfoldable pub object_slots : Value → Fields → List Slot
unfolding choices_slots anthropic_slots response_slots ollama_slots no_values fields_or_none
object_slots event obj =
    let etype = event_type obj in
    choices_slots 0 (no_values (do v ← get_key (codes "choices") obj; as_array v))
    ++ (if text_eq etype (codes "content_block_delta")
        then anthropic_slots (u64_or (codes "index") 0 event)
            (fields_or_none (get_key (codes "delta") obj))
        else [])
    ++ response_slots event etype (get_key (codes "delta") obj)
    ++ ollama_slots obj

unfoldable pub text_slots : Value → List Slot
unfolding object_slots
text_slots event = elim (as_object event) [ none ↦ [] | some obj ↦ object_slots event obj ]

-- A `finish_reason` that ends its choice: there, not null, and no blank text.
unfoldable pub finished : Option Value → Bool
finished none = false
finished (some null) = false
finished (some (string s)) = not (is_empty (trim s))
finished (some _) = true

unfoldable pub finished_prefixes : ℕ → Values → List Text
unfolding finished choice_index choice_channel
finished_prefixes position no_items = []
finished_prefixes position (item c cs) =
    let rest = finished_prefixes (suc position) cs in
    if finished (get (codes "finish_reason") c)
    then choice_channel (choice_index c position) ∷ rest
    else rest

abbrev pub end_types : List Text
end_types = map codes (
    "message_stop" ∷ "message_delta" ∷ "response.completed" ∷ "response.incomplete"
    ∷ "response.failed" ∷ [])

unfoldable pub is_done : Fields → Bool
is_done obj = elim (do v ← get_key (codes "done") obj; as_bool v) [ none ↦ false | some b ↦ b ]

-- `none`: all channels end.
unfoldable pub object_prefixes : Value → Fields → Option (List Text)
unfolding finished_prefixes event_type response_channel anthropic_channel is_done
object_prefixes event obj =
    let t = event_type obj in
    if is_done obj
    then none
    else if contains end_types t
    then none
    else if text_eq t (codes "content_block_stop")
    then some (anthropic_channel (u64_or (codes "index") 0 event) ∷ [])
    else if text_eq t (codes "response.output_text.done")
    then some (response_channel event (codes "text") ∷ [])
    else if text_eq t (codes "response.reasoning_text.done")
        || text_eq t (codes "response.reasoning_summary_text.done")
    then some (response_channel event (codes "reason") ∷ [])
    else if text_eq t (codes "response.function_call_arguments.done")
    then some (response_channel event (codes "args") ∷ [])
    else some (finished_prefixes 0 (no_values (do v ← get_key (codes "choices") obj; as_array v)))

unfoldable pub terminal_prefixes : Value → Option (List Text)
unfolding object_prefixes
terminal_prefixes event = elim (as_object event) [
  | none ↦ some []
  | some obj ↦ object_prefixes event obj
]
