-- ===== src/Tests/Detect.antt =====
-- Protocol detection and streamed events: runs taken from the repository's tests, and the theorems at
-- concrete inputs.
use maskit_rs.Json.{get}
use maskit_rs.Str.{to_ascii_lowercase}
use maskit_rs.Str.{contains_str}
use maskit_rs.Base.{◌≡◌, refl, some, none, [], codes}
use maskit_rs.Base.Map.{text_eq}
use maskit_rs.Json.{Fields, object, array, item, no_items, field, no_fields, string, get_key}
use maskit_rs.Detect.{
  detect_protocol, chat_completions, responses, unknown, first_role_valid, shape, decide,
  role_valid,
}

-- `{"messages": [{"role": "user"}]}`
abbrev chat_body : Fields
chat_body =
    field (codes "messages")
      (array (item (object (field (codes "role") (string (codes "user")) no_fields)) no_items))
      no_fields

abbrev tool_body : Fields
tool_body = field (codes "customer") (string (codes "x")) no_fields

run_detect :
    (detect_protocol (codes "/anything/at/all") (some (object chat_body)) ≡ chat_completions)
    × (detect_protocol (codes "/v1/x") (some (object (field (codes "input") (string []) no_fields)))
        ≡ responses)
    × (detect_protocol (codes "/v1/x") none ≡ unknown)
unfolding detect_protocol decide shape get_key text_eq contains_str to_ascii_lowercase
    first_role_valid role_valid get
run_detect = (refl, refl, refl)
