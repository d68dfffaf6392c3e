-- ===== src/Exemptions.antt =====
-- src/mask/exemptions.rs: which keys and which leaves of a JSON body are exempt from scanning.
pub mod Tables
pub mod Position
pub mod Protected
use maskit_rs.Base.{
  Bool, true, false, not, ◌&&◌, ◌||◌, Option, none, some, Text, List, codes, contains,
  if◌then◌else◌,
}
use maskit_rs.Base.Map.{text_eq}
use Tables.{
  correlation_id_keys, media_value_keys, media_value_parents, skip_scalar_keys, role_type_parents,
  skip_keys, protocol_parents, protocol_id_parents,
}

-- `parent.map(|p| table.contains(p)).unwrap_or(false)`
unfoldable pub parent_in : List Text → Option Text → Bool
parent_in table none = false
parent_in table (some p) = contains table p

abbrev pub is_root : Option Text → Bool
is_root none = true
is_root (some _) = false

-- The last part of `leaf_exempt`: a key of `skip_keys` at its position.
unfoldable pub position_exempt : Text → Option Text → Bool
position_exempt key parent =
    if text_eq (codes "name") key && not (parent_in protocol_parents parent)
    then false
    else if (text_eq (codes "url") key
          || text_eq (codes "data") key
          || text_eq (codes "b64_json") key
          || text_eq (codes "image_url") key)
        && not (parent_in protocol_parents parent)
    then false
    else if text_eq (codes "id") key && not (parent_in protocol_id_parents parent)
    then false
    else true

unfoldable pub leaf_exempt : Option Text → Option Text → Bool → Bool
leaf_exempt none parent in_business = false
leaf_exempt (some key) parent in_business =
    if contains correlation_id_keys key
    then true
    else if in_business
    then false
    else if contains media_value_keys key && parent_in media_value_parents parent
    then true
    else if contains skip_scalar_keys key
    then true
    else if (text_eq (codes "role") key || text_eq (codes "type") key)
        && (is_root parent || parent_in role_type_parents parent)
    then true
    else if contains skip_keys key
    then position_exempt key parent
    else false
