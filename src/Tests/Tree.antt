-- ===== src/Tests/Tree.antt =====
-- src/mask/tree.rs at concrete inputs.
use maskit_rs.Json.{contains_key}
use maskit_rs.Tree.Mask.{skips_subtree}
use maskit_rs.Tree.Mask.Depth.{levels}
use maskit_rs.Json.{insert_key}
use maskit_rs.Exemptions.Tables.{media_value_keys}
use maskit_rs.Exemptions.{leaf_exempt}
use maskit_rs.Exemptions.Tables.{protocol_words}
use maskit_rs.Exemptions.Tables.{business_keys}
use maskit_rs.Exemptions.Tables.{protocol_id_parents}
use maskit_rs.Exemptions.Tables.{protocol_parents}
use maskit_rs.Exemptions.Tables.{role_type_parents}
use maskit_rs.Exemptions.Tables.{correlation_id_keys}
use maskit_rs.Exemptions.Tables.{skip_keys}
use maskit_rs.Exemptions.Tables.{skip_subtree_keys}
use maskit_rs.Exemptions.Tables.{skip_scalar_keys}
use maskit_rs.Tree.Mask.{in_business}
use maskit_rs.Base.{
  ℕ, ◌+◌, ◌≡◌, refl, Bool, true, false, not, none, Text, List, [], ◌∷◌, codes, inl, inr, Bool-cases,
  arith, contains, all, if◌then◌else◌,
}
use maskit_rs.Base.Map.{text_eq, text_eq_iff}
use maskit_rs.Base.Results.{ok, fails}
use maskit_rs.Engine.{Restoring}
use maskit_rs.Str.{contains_str}
use maskit_rs.Json.{
  Value, number, pos_int, string, array, object, no_items, item, Fields, no_fields, field,
}
use maskit_rs.Json.Keys.{UniqueKeys}
use maskit_rs.Exemptions.Tables.{protected_key_names}
use maskit_rs.Tree.Mask.{MaskCtx, Progress, mask_tree}
use maskit_rs.Tree.Mask.Depth.{fails-mask_tree}
use maskit_rs.Tree.Mask.Unchanged.{mask_tree-unchanged}
use maskit_rs.Tree.Mask.Scrubbed.{mask_tree-Holds, Holds}
use maskit_rs.Tree.Restore.{restore_tree}
use maskit_rs.Tree.Restore.Entries.{restore_tree-Restores, Restores}
use maskit_rs.Json.Keys.{HasUniqueKeys}
use maskit_rs.Tree.Mask.Scrubbed.{Spared}

-- A context that masks every text with a word in it and counts what it masks.
abbrev secret : Text
secret = codes "secret"

abbrev pub mask_secret : Text → ℕ → Text × ℕ
mask_secret s n = if contains_str secret s then (codes "{{TERM_bcdfgh}}", n + 1) else (s, n)

abbrev pub ctx : MaskCtx ℕ
ctx = record {
  mask = mask_secret;
  is_blob_token = λ s. false;
  is_skippable_str = λ s. false;
  show_f64 = λ n. codes "0.5";
}

abbrev start : Progress ℕ
start = record { changed = false; context = 0 }

abbrev message : Text → Value
message s =
    object
      (field (codes "role") (string (codes "user")) (field (codes "content") (string s) no_fields))

masked_message :
    mask_tree ctx (message (codes "a secret word")) none none [] 0 start
    ≡ (ok (message (codes "{{TERM_bcdfgh}}")), record { changed = true; context = 1 })
unfolding mask_tree in_business protected_key_names skip_scalar_keys text_eq skip_subtree_keys
    skip_keys correlation_id_keys role_type_parents protocol_parents protocol_id_parents
    business_keys protocol_words leaf_exempt media_value_keys insert_key contains_str
masked_message = refl

fails-mask_tree_example :
    fails (mask_tree ctx (array (item (message (codes "hi")) no_items)) none none [] 23 start)
    ≡ true
unfolding levels skips_subtree in_business
fails-mask_tree_example =
    fails-mask_tree ctx (array (item (message (codes "hi")) no_items)) none none [] 23 start

mask_tree-unchanged_example : (false ≡ false) × (message (codes "hi") ≡ message (codes "hi"))
unfolding mask_tree in_business protected_key_names skip_scalar_keys skip_subtree_keys skip_keys
    correlation_id_keys role_type_parents protocol_parents protocol_id_parents business_keys
    protocol_words media_value_keys leaf_exempt insert_key contains_key contains_str text_eq
    HasUniqueKeys
mask_tree-unchanged_example =
    mask_tree-unchanged ctx (message (codes "hi")) (message (codes "hi")) none none [] 0 start start
      ((refl, (refl, tt)), (tt, (tt, tt))) refl refl

abbrev Clean : Text → Type 0
Clean t = contains_str secret t ≡ false

mask_secret-Clean : (s : Text) (n : ℕ) → Clean (mask_secret s n).0
unfolding contains_str
mask_secret-Clean s n = elim (Bool-cases (contains_str secret s)) [
  | inl found ↦ rw found refl
  | inr none_found ↦ rw none_found none_found
]

all-contains :
    (p : Text → Bool) (xs : List Text) (k : Text)
    → all p xs ≡ true
    → contains xs k ≡ true
    → p k ≡ true
all-contains p [] k h c = cc
all-contains p (x ∷ xs) k h c = ground (arith, all-contains p xs k, text_eq_iff x k)

names-Clean : (k : Text) → contains protected_key_names k ≡ true → Clean k
unfolding protected_key_names skip_scalar_keys contains_str skip_subtree_keys skip_keys
    correlation_id_keys role_type_parents protocol_parents protocol_id_parents business_keys
    protocol_words
names-Clean k c =
    ground (arith, all-contains (λ t. not (contains_str secret t)) protected_key_names k refl c)

mask_tree-Holds_example : Holds Clean (message (codes "{{TERM_bcdfgh}}"))
unfolding mask_tree in_business protected_key_names skip_scalar_keys skip_subtree_keys skip_keys
    correlation_id_keys role_type_parents protocol_parents protocol_id_parents business_keys
    protocol_words media_value_keys leaf_exempt insert_key contains_str text_eq Spared
mask_tree-Holds_example =
    mask_tree-Holds ctx Clean mask_secret-Clean names-Clean (message (codes "a secret word"))
      (message (codes "{{TERM_bcdfgh}}")) none none [] 0 start
      (record { changed = true; context = 1 }) (refl, (tt, tt)) refl

abbrev at_rest : Restoring ℕ
at_rest = record {
  stats = record { restored = 0; unresolved = 0; degraded = 0; samples = [] };
  store = 0;
}

-- Restores one token, as a text and as a key.
abbrev restore_phone : Text → Bool → Restoring ℕ → Text × Restoring ℕ
restore_phone s escape r =
    if text_eq s (codes "{{PHONE_bcdfgh}}") then (codes "13800138000", r) else (s, r)

-- Both the token and the number that it stands for are keys: the token stays.
abbrev colliding : Fields
colliding =
    field (codes "{{PHONE_bcdfgh}}") (number (pos_int 1))
      (field (codes "13800138000") (string (codes "{{PHONE_bcdfgh}}")) no_fields)

colliding_restored :
    (restore_tree restore_phone (object colliding) 0 at_rest).0
    ≡ object (
        field
          (codes "{{PHONE_bcdfgh}}")
          (number (pos_int 1))
          (field (codes "13800138000") (string (codes "13800138000")) no_fields))
unfolding restore_tree insert_key text_eq contains_key
colliding_restored = refl

restore_tree-Restores_example :
    (gs : Fields) × ((restore_tree restore_phone (object colliding) 0 at_rest).0 ≡ object gs)
    × Restores restore_phone colliding 1 colliding gs
    × UniqueKeys gs
unfolding contains_key text_eq
restore_tree-Restores_example =
    restore_tree-Restores restore_phone colliding 0 at_rest (refl, (refl, tt)) (omega arith)
