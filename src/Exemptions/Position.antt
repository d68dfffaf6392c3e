-- ===== src/Exemptions/Position.antt =====
-- src/mask/exemptions.rs: what `leaf_exempt` says by zone and by position.
use maskit_rs.Base.{
  ◌≡◌, ◌↔◌, refl, Bool, true, false, not, ◌&&◌, ◌||◌, Option, none, some, Text, contains, arith,
}
use maskit_rs.Exemptions.{leaf_exempt, position_exempt, parent_in}
use maskit_rs.Exemptions.Tables.{
  correlation_id_keys, media_value_parents, skip_scalar_keys, role_type_parents, skip_keys,
  protocol_parents, protocol_id_parents,
}

-- A parent that is no container of any of the protocols.
unfoldable pub Foreign : Text → Type 0
Foreign p =
    (contains media_value_parents p ≡ false)
    × (contains role_type_parents p ≡ false)
    × (contains protocol_parents p ≡ false)
    × (contains protocol_id_parents p ≡ false)

skip-position :
    (key p : Text)
    → contains correlation_id_keys key ≡ false
    → contains skip_keys key ≡ true
    → contains protocol_parents p ≡ false
    → contains protocol_id_parents p ≡ false
    → position_exempt key (some p) ≡ false
unfolding skip_keys correlation_id_keys position_exempt parent_in
skip-position key p c s f g = ground arith

-- Under a parent that none of the four tables of containers names, no key is exempt by its bare
-- name but a correlation id and, outside a business zone, a scalar of the protocols' metadata.
pub leaf_exempt-Foreign :
    (key p : Text) (in_business : Bool)
    → Foreign p
    → leaf_exempt (some key) (some p) in_business
      ≡ (contains correlation_id_keys key || not in_business && contains skip_scalar_keys key)
unfolding leaf_exempt Foreign parent_in
leaf_exempt-Foreign key p true (a, b, c, d) = ground arith
leaf_exempt-Foreign key p false (a, b, c, d) = ground (arith, skip-position key p)

-- In a business zone exactly the correlation ids are exempt, under every parent.
pub leaf_exempt-business :
    (key : Option Text) (parent : Option Text)
    → (leaf_exempt key parent true ≡ true)
      ↔ ((k : Text) × (key ≡ some k) × (contains correlation_id_keys k ≡ true))
unfolding leaf_exempt
leaf_exempt-business none parent = (λ h. cc, λ (k, e, c). cc)
leaf_exempt-business (some k) parent = (λ h. (k, refl, ground arith), λ (j, e, c). ground arith)
