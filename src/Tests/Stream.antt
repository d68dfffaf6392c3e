-- ===== src/Tests/Stream.antt =====
-- Streamed answers: runs taken from the repository's tests, and the theorems at concrete inputs.
use maskit_rs.Stream.Slots.{no_values}
use maskit_rs.Json.{put}
use maskit_rs.Stream.Slots.{is_generic_field}
use maskit_rs.Stream.Slots.{choice_index}
use maskit_rs.Json.{modify}
use maskit_rs.Str.{parse_unsigned}
use maskit_rs.Str.{split_once}
use maskit_rs.Str.{strip_prefix}
use maskit_rs.Json.{contains_key}
use maskit_rs.Stream.Slots.{event_type}
use maskit_rs.Str.{show_nat}
use maskit_rs.Stream.Slots.{chat_known_delta_fields}
use maskit_rs.Json.{get}
use maskit_rs.Json.{get_key}
use maskit_rs.Base.Map.{text_eq}
use maskit_rs.Base.Map.{insert}
use maskit_rs.Str.{byte_len}
use maskit_rs.Placeholder.{partial_rx}
use maskit_rs.Stream.Sse.{hold}
use maskit_rs.Base.Map.{lookup}
use maskit_rs.Regex.{find}
use maskit_rs.Base.Map.{remove}
use maskit_rs.Stream.Sse.{split_partial}
use maskit_rs.Stream.Sse.Chunks.{join}
use maskit_rs.Str.{as_bytes}
use maskit_rs.Base.{arith, Text, ◌≡◌, refl, true, false, some, [], ◌∷◌, ◌++◌, List, codes}
use maskit_rs.Json.{Value, object, array, item, no_items, field, no_fields, string, number, pos_int}
use maskit_rs.Stream.Slots.{text_slots, terminal_prefixes}
use maskit_rs.Stream.Slots.Write.{
  set_slot, set_chat, modify_items, set_choices, set_choice_field, set_late_field, set_other_field,
}
use maskit_rs.Stream.Sse.{pending_text, confirm}
use maskit_rs.Stream.Sse.Bytes.{IsPartial-none}
use maskit_rs.Stream.Sse.Chunks.{decode_all, decode_all_lem}
use maskit_rs.Stream.Sse.Hold.{
  confirm_all, confirm_all_lem, confirm-IsBounded, IsBounded, event_text, confirmed_text, Event,
}
use maskit_rs.Json.{Fields, get_key, modify, put}
use maskit_rs.Base.{inl}
use maskit_rs.Stream.Slots.{anthropic_slots}
use maskit_rs.Stream.Slots.RoundTrip.{HasSlot, DistinctKeys, set_slot-anthropic_slots}
use maskit_rs.Tests.Decoder.{lossy}

-- `{"choices": [{"index": 0, "delta": {"tool_input": …}}]}`
abbrev chat : Text → Value
chat s = object (
    field (codes "choices")
      (array (
        item
          (object (
            field (codes "index") (number (pos_int 0)) (
              field (codes "delta") (object (field (codes "tool_input") (string s) no_fields))
                no_fields)))
          no_items))
      no_fields)

run_text_slots : text_slots (chat (codes "abc")) ≡ (codes "c0.xtool_input", codes "abc", false) ∷ []
unfolding text_slots get_key text_eq get chat_known_delta_fields show_nat event_type contains_key
run_text_slots = refl

run_set_slot :
    set_slot (chat (codes "abc")) (codes "c0.xtool_input") (codes "xyz") ≡ chat (codes "xyz")
unfolding set_slot set_chat modify_items set_choices set_choice_field set_late_field set_other_field
    strip_prefix split_once parse_unsigned modify text_eq choice_index get is_generic_field put
run_set_slot = refl

run_terminal_prefixes : terminal_prefixes (chat (codes "abc")) ≡ some []
unfolding terminal_prefixes get_key text_eq no_values get
run_terminal_prefixes = refl

-- The three bytes of the sign U+20AC, torn after the second.
decode_all_lem_example :
    decode_all lossy ((0x61 ∷ 0xE2 ∷ 0x82 ∷ []) ∷ (0xAC ∷ 0x62 ∷ []) ∷ []) []
    ≡ (b'a' ∷ 0x20AC ∷ b'b' ∷ [], [])
unfolding as_bytes join
decode_all_lem_example =
    decode_all_lem lossy (b'a' ∷ 0x20AC ∷ b'b' ∷ [])
      ((0x61 ∷ 0xE2 ∷ 0x82 ∷ []) ∷ (0xAC ∷ 0x62 ∷ []) ∷ []) [] refl IsPartial-none refl

-- A token torn in two, with another channel's text between.
abbrev torn : List Event
torn =
    (codes "c0.content", false, codes "IP {{IP_bc")
    ∷ (codes "c0.reason", false, codes "so")
    ∷ (codes "c0.content", true, codes "dfgh}}")
    ∷ []

run_torn : confirm_all torn [] ≡ (
  (codes "c0.content", codes "IP ")
      ∷ (codes "c0.reason", codes "so")
      ∷ (codes "c0.content", codes "{{IP_bcdfgh}}")
      ∷ [],
  [],
)
unfolding confirm_all confirm split_partial pending_text remove find lookup hold partial_rx byte_len
    insert text_eq
run_torn = refl

confirm_all_lem_example :
    confirmed_text (codes "c0.content") (confirm_all torn []).0
      ++ pending_text (codes "c0.content") (confirm_all torn []).1
    ≡ pending_text (codes "c0.content") [] ++ event_text (codes "c0.content") torn
confirm_all_lem_example = confirm_all_lem (codes "c0.content") torn []

none-IsBounded : IsBounded []
unfolding IsBounded pending_text byte_len lookup
none-IsBounded channel = omega arith

confirm-IsBounded_example :
    IsBounded (confirm (codes "c0.content") true (codes "{{IP_") []).1
    × (true ≡ true
        → pending_text (codes "c0.content") (confirm (codes "c0.content") true (codes "{{IP_") []).1
          ≡ [])
confirm-IsBounded_example =
    confirm-IsBounded (codes "c0.content") true (codes "{{IP_") [] none-IsBounded

-- `{"type": "content_block_delta", "delta": {"thinking": "hi"}}`
abbrev delta : Fields
delta = field (codes "thinking") (string (codes "hi")) no_fields

abbrev block_event : Value
block_event = object (
    field (codes "type") (string (codes "content_block_delta"))
      (field (codes "delta") (object delta) no_fields))

thinking_slot : HasSlot (codes "a3.think", codes "hi", false) (anthropic_slots 3 delta)
unfolding HasSlot anthropic_slots get_key text_eq show_nat
thinking_slot = inl refl

delta-DistinctKeys : DistinctKeys delta
unfolding DistinctKeys get_key
delta-DistinctKeys = (refl, tt)

set_slot-anthropic_slots_example :
    (key : Text) × (get_key key delta ≡ some (string (codes "hi")))
    × (set_slot block_event (codes "a3.think") (codes "yo")
        ≡ modify (codes "delta") (put key (codes "yo")) block_event)
set_slot-anthropic_slots_example =
    set_slot-anthropic_slots 3 delta (codes "a3.think") (codes "hi") (codes "yo") false block_event
      delta-DistinctKeys thinking_slot
