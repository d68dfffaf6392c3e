-- ===== src/Detect/Priority.antt =====
-- src/detect/mod.rs: the priority of the criteria of `detect_protocol`.
use maskit_rs.Base.{◌≡◌, none, some, Text, codes, arith}
use maskit_rs.Json.{Fields, object, get_key, contains_key}
use maskit_rs.Detect.{detect_protocol, shape, decide, unknown}

-- A body with none of the top-level names that the criteria ask for is unknown on every path.
pub detect_protocol-foreign :
    (path : Text) (obj : Fields)
    → get_key (codes "messages") obj ≡ none
    → get_key (codes "input") obj ≡ none
    → get_key (codes "anthropic_version") obj ≡ none
    → get_key (codes "instructions") obj ≡ none
    → get_key (codes "model") obj ≡ none
    → get_key (codes "prompt") obj ≡ none
    → detect_protocol path (some (object obj)) ≡ unknown
unfolding detect_protocol shape decide contains_key
detect_protocol-foreign path obj a b c d e f = ground arith
