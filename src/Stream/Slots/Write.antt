-- ===== src/Stream/Slots/Write.antt =====
-- src/stream/slots.rs, `set_slot`: a text is written back to the field its channel stands for.
use maskit_rs.Base.{ℕ, zero, suc, ◌^◌, none, some, Text, codes, ◌==◌, if◌then◌else◌}
use maskit_rs.Base.Map.{text_eq}
use maskit_rs.Str.{parse_unsigned, strip_prefix, split_once}
use maskit_rs.Json.{Value, Values, array, no_items, item, put, modify}
use maskit_rs.Stream.Slots.{choice_index, u64_or, is_generic_field}

-- `as_array_mut` and an edit of the elements
unfoldable pub modify_items : (Values → Values) → Value → Value
modify_items f (array vs) = array (f vs)
modify_items f v = v

-- `rd.get_mut(n)`
unfoldable pub modify_nth : ℕ → (Value → Value) → Values → Values
modify_nth n f no_items = no_items
modify_nth zero f (item v vs) = item (f v) vs
modify_nth (suc n) f (item v vs) = item v (modify_nth n f vs)

-- Every tool call of the number is written.
unfoldable pub set_tools : ℕ → Text → ℕ → Values → Values
unfolding u64_or
set_tools n text tidx no_items = no_items
set_tools n text tidx (item tc tcs) =
    let rest = set_tools n text (suc tidx) tcs in
    if u64_or (codes "index") tidx tc == n
    then item (modify (codes "function") (put (codes "arguments") text) tc) rest
    else item tc rest

unfoldable pub set_detail : Text → Text → Value → Value
unfolding modify_nth modify_items
set_detail number text c = elim (parse_unsigned (2 ^ 64) number) [
  | none ↦ c
  | some n ↦
      modify (codes "delta")
        (modify (codes "reasoning_details") (modify_items (modify_nth n (put (codes "text") text))))
        c
]

unfoldable pub set_tool : Text → Text → Value → Value
unfolding set_tools modify_items
set_tool number text c = elim (parse_unsigned (2 ^ 64) number) [
  | none ↦ c
  | some n ↦
      modify (codes "delta") (modify (codes "tool_calls") (modify_items (set_tools n text 0))) c
]

-- The last arms of the match: `tool…`, then the generic channels.
unfoldable pub set_other_field : Text → Text → Value → Value
set_other_field name text c = elim (strip_prefix (codes "tool") name) [
  | some number ↦ set_tool number text c
  | none ↦ elim (is_generic_field name) [
    | some key ↦ modify (codes "delta") (put key text) c
    | none ↦ c
  ]
]

unfoldable pub set_late_field : Text → Text → Value → Value
set_late_field name text c =
    if text_eq name (codes "text")
    then put (codes "text") text c
    else if text_eq name (codes "fcall")
    then modify (codes "delta") (modify (codes "function_call") (put (codes "arguments") text)) c
    else set_other_field name text c

unfoldable pub set_choice_field : Text → Text → Value → Value
set_choice_field name text c =
    if text_eq name (codes "content")
    then modify (codes "delta") (put (codes "content") text) c
    else if text_eq name (codes "reason")
    then modify (codes "delta") (put (codes "reasoning_content") text) c
    else if text_eq name (codes "reason2")
    then modify (codes "delta") (put (codes "reasoning") text) c
    else elim (strip_prefix (codes "rd") name) [
      | some number ↦ set_detail number text c
      | none ↦ set_late_field name text c
    ]

-- The first choice of the number is written.
unfoldable pub set_choices : ℕ → Text → Text → ℕ → Values → Values
set_choices idx name text position no_items = no_items
set_choices idx name text position (item c cs) =
    let rest = set_choices idx name text (suc position) cs in
    if choice_index c position == idx then item (set_choice_field name text c) cs else item c rest

unfoldable pub set_chat : Text → Text → Value → Value
set_chat rest text event = elim (split_once b'.' rest) [
  | none ↦ event
  | some (idx_s, name) ↦ elim (parse_unsigned (2 ^ 64) idx_s) [
    | none ↦ event
    | some idx ↦ modify (codes "choices") (modify_items (set_choices idx name text 0)) event
  ]
]

-- The key of the `delta` that an Anthropic channel's last part stands for.
unfoldable pub anthropic_key : Text → Text
anthropic_key name = elim (is_generic_field name) [
  | some key ↦ key
  | none ↦
      if text_eq name (codes "think")
      then codes "thinking"
      else if text_eq name (codes "pj")
      then codes "partial_json"
      else name
]

unfoldable pub set_anthropic : Text → Text → Value → Value
set_anthropic rest text event = elim (split_once b'.' rest) [
  | none ↦ event
  | some (_, name) ↦ modify (codes "delta") (put (anthropic_key name) text) event
]

-- `is_generic_field(rest).unwrap_or(rest)`
unfoldable pub ollama_key : Text → Text
ollama_key rest = elim (is_generic_field rest) [ some k ↦ k | none ↦ rest ]

unfoldable pub set_ollama : Text → Text → Value → Value
set_ollama channel text event = elim (strip_prefix (codes "o.message.") channel) [
  | some rest ↦ modify (codes "message") (put (ollama_key rest) text) event
  | none ↦
      if text_eq channel (codes "o.response")
      then put (codes "response") text event
      else if text_eq channel (codes "o.thinking")
      then put (codes "thinking") text event
      else event
]

unfoldable pub set_slot : Value → Text → Text → Value
set_slot event channel text = elim (strip_prefix (codes "c") channel) [
  | some rest ↦ set_chat rest text event
  | none ↦ elim (strip_prefix (codes "a") channel) [
    | some rest ↦ set_anthropic rest text event
    | none ↦ elim (strip_prefix (codes "r") channel) [
      | some _ ↦ put (codes "delta") text event
      | none ↦ set_ollama channel text event
    ]
  ]
]
