-- ===== src/Tests/Exemptions.antt =====
-- The exemptions: runs taken from the repository's tests, and the theorems at concrete inputs.
use maskit_rs.Base.{◌≡◌, refl, true, false, some, none, codes, contains}
use maskit_rs.Base.Map.{text_eq}
use maskit_rs.Exemptions.{leaf_exempt, position_exempt, parent_in}
use maskit_rs.Exemptions.Tables.{
  correlation_id_keys, media_value_keys, media_value_parents, skip_scalar_keys, skip_keys,
  role_type_parents, protocol_parents, protocol_id_parents, protected_key_names,
}
use maskit_rs.Exemptions.Position.{Foreign, leaf_exempt-Foreign}
use maskit_rs.Exemptions.Protected.{leaf_exempt-protected_key_names}

run_leaf_exempt :
    (leaf_exempt (some (codes "call_id")) (some (codes "input")) true ≡ true)
    × (leaf_exempt (some (codes "name")) (some (codes "function")) false ≡ true)
    × (leaf_exempt (some (codes "name")) (some (codes "customer")) false ≡ false)
    × (leaf_exempt (some (codes "role")) none false ≡ true)
unfolding leaf_exempt position_exempt parent_in text_eq correlation_id_keys media_value_keys
    media_value_parents skip_scalar_keys skip_keys role_type_parents protocol_parents
    protocol_id_parents
run_leaf_exempt = (refl, refl, refl, refl)

customer-Foreign : Foreign (codes "customer")
unfolding Foreign text_eq correlation_id_keys media_value_keys media_value_parents skip_scalar_keys
    skip_keys role_type_parents protocol_parents protocol_id_parents
customer-Foreign = (refl, refl, refl, refl)

leaf_exempt-Foreign_example :
    leaf_exempt (some (codes "image_url")) (some (codes "customer")) false ≡ false
unfolding text_eq correlation_id_keys media_value_keys media_value_parents skip_scalar_keys
    skip_keys role_type_parents protocol_parents protocol_id_parents
leaf_exempt-Foreign_example =
    leaf_exempt-Foreign (codes "image_url") (codes "customer") false customer-Foreign

role_exempt : leaf_exempt (some (codes "role")) (some (codes "messages")) false ≡ true
unfolding leaf_exempt position_exempt parent_in text_eq correlation_id_keys media_value_keys
    media_value_parents skip_scalar_keys skip_keys role_type_parents protocol_parents
    protocol_id_parents
role_exempt = refl

leaf_exempt-protected_key_names_example : contains protected_key_names (codes "role") ≡ true
leaf_exempt-protected_key_names_example =
    leaf_exempt-protected_key_names (codes "role") (some (codes "messages")) false role_exempt
