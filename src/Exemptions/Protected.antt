-- ===== src/Exemptions/Protected.antt =====
-- src/mask/exemptions.rs: the leaves that are exempt and the key names that are protected.
use maskit_rs.Base.{
  ◌≡◌, refl, Bool, true, ◌||◌, Option, some, Text, List, [], ◌∷◌, ◌++◌, codes, contains, arith,
}
use maskit_rs.Base.Map.{text_eq}
use maskit_rs.Exemptions.{leaf_exempt}
use maskit_rs.Exemptions.Tables.{
  correlation_id_keys, media_value_keys, skip_scalar_keys, role_type_parents, skip_keys,
  protocol_parents, protocol_id_parents, protected_key_names, protocol_words, business_keys,
  skip_subtree_keys,
}

contains-append :
    (xs ys : List Text) (k : Text) → contains (xs ++ ys) k ≡ (contains xs k || contains ys k)
contains-append [] ys k = refl
contains-append (x ∷ xs) ys k = ground (arith, contains-append xs ys k)

protected_names :
    (k : Text)
    → contains protected_key_names k ≡ (
        contains skip_scalar_keys k
        || contains skip_subtree_keys k
        || contains skip_keys k
        || contains correlation_id_keys k
        || contains role_type_parents k
        || contains protocol_parents k
        || contains protocol_id_parents k
        || contains business_keys k
        || contains protocol_words k)
unfolding protected_key_names
protected_names k = simp contains-append

-- The names that `leaf_exempt` asks for by themselves.
leaf_word : Text → Bool
leaf_word k =
    text_eq (codes "image_url") k
    || text_eq (codes "file_data") k
    || text_eq (codes "role") k
    || text_eq (codes "type") k

leaf_word_listed : (k : Text) → leaf_word k ≡ true → contains protocol_words k ≡ true
unfolding protocol_words leaf_word
leaf_word_listed k h = ground arith

media_listed :
    (k : Text)
    → contains media_value_keys k ≡ true
    → (contains protocol_words k || contains protocol_parents k) ≡ true
unfolding media_value_keys protocol_parents leaf_word
media_listed k h = ground (arith, leaf_word_listed k)

-- A value that is exempt stands under a protected key name, whatever the parent and the zone.
pub leaf_exempt-protected_key_names :
    (key : Text) (parent : Option Text) (in_business : Bool)
    → leaf_exempt (some key) parent in_business ≡ true
    → contains protected_key_names key ≡ true
unfolding leaf_exempt leaf_word
leaf_exempt-protected_key_names key parent in_business h =
    ground (arith, protected_names key, media_listed key, leaf_word_listed key)
