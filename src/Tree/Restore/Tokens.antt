-- ===== src/Tree/Restore/Tokens.antt =====
-- src/mask/tree.rs, `restore_tree`, over `restore_final` of src/mask/engine.rs: a tree of tokens.
pub mod Restored
use maskit_rs.Base.{
  ℕ, ◌+◌, ◌≤◌, ◌≡◌, ◌≢◌, ◌⊎◌, refl, sym, ap, ◌∙◌, inl, inr, Bool-cases, Bool, true, false, not,
  ◌&&◌, some, Text, List, [], ◌∷◌, any, contains, ltb, ◌==◌, if◌then◌else◌, arith,
}
use maskit_rs.Base.Map.{lookup, text_eq, text_eq_iff}
use maskit_rs.Json.{
  Value, null, bool, number, string, array, object, Values, no_items, item, Fields, no_fields,
  field, Number, insert_key, contains_key,
}
use maskit_rs.Json.Keys.{
  UniqueKeys, join, join-no_fields, join_assoc, insert_key-new, UniqueKeys-join, join-insert_key,
}
use maskit_rs.Store.{SessionStore, Session}
use maskit_rs.Exemptions.Tables.{json_str_keys, restore_max_depth}
use maskit_rs.Engine.{RestoreEnv, Restoring, restore_final, has}
use maskit_rs.Engine.Find.{no_brace}
use maskit_rs.Engine.Pass.{Segment, AreSegments, masked_text, unmasked_text, Knows, restored_all}
use maskit_rs.Engine.Restored.{IsQuiet, restore_final-masked_text}
use maskit_rs.Placeholder.{escaped_placeholder_rx, loose_placeholder_rx}
use maskit_rs.Tree.Restore.{
  may_hold_token, chosen_key, restore_key, put_restored, restore_string, restore_tree,
  restore_items, restore_fields, restore_member,
}
use maskit_rs.Tree.Restore.Entries.{fields_step}
use mathlib.Core.Path.{subst}

-- A tree whose texts are plain parts and tokens, with the values that the tokens hide.
mutual
  pub data Hidden : Type 0 where
    nothing : Hidden
    flag : Bool → Hidden
    count : Number → Hidden
    words : List Segment → Text → Hidden
    list : Hiddens → Hidden
    dict : Members → Hidden

  pub data Hiddens : Type 0 where
    no_more : Hiddens
    also : Hidden → Hiddens → Hiddens

  pub data Members : Type 0 where
    no_members : Members
    member : Text → Hidden → Members → Members

-- The tree with the tokens, and the one with the values; a text below a key of embedded JSON has its
-- values escaped.
unfoldable mutual
  unfolding masked_text

  pub masked_tree : Hidden → Value
  masked_tree nothing = null
  masked_tree (flag b) = bool b
  masked_tree (count n) = number n
  masked_tree (words gs tail) = string (masked_text gs tail)
  masked_tree (list hs) = array (masked_items hs)
  masked_tree (dict ms) = object (masked_fields ms)

  pub masked_items : Hiddens → Values
  masked_items no_more = no_items
  masked_items (also h hs) = item (masked_tree h) (masked_items hs)

  pub masked_fields : Members → Fields
  masked_fields no_members = no_fields
  masked_fields (member k h ms) = field k (masked_tree h) (masked_fields ms)

unfoldable mutual
  unfolding unmasked_text

  pub unmasked_tree : Bool → Hidden → Value
  unmasked_tree escape nothing = null
  unmasked_tree escape (flag b) = bool b
  unmasked_tree escape (count n) = number n
  unmasked_tree escape (words gs tail) = string (unmasked_text escape gs tail)
  unmasked_tree escape (list hs) = array (unmasked_items hs)
  unmasked_tree escape (dict ms) = object (unmasked_fields ms)

  pub unmasked_items : Hiddens → Values
  unmasked_items no_more = no_items
  unmasked_items (also h hs) = item (unmasked_tree false h) (unmasked_items hs)

  pub unmasked_fields : Members → Fields
  unmasked_fields no_members = no_fields
  unmasked_fields (member k h ms) =
      field k (unmasked_tree (contains json_str_keys k) h) (unmasked_fields ms)

module _ (env : RestoreEnv) where
  -- A text that the passes restore: it is no payload, its session is open, its tokens are known,
  -- and what it is restored to gives the later passes no work.
  pub record IsRestorable (escape : Bool) (gs : List Segment) (tail : Text)
      (r : Restoring SessionStore) : Type 0 where
    pub scanned : env.is_skippable_str (masked_text gs tail) ≡ false
    pub session : Session
    pub opened : lookup env.sid r.store.sessions ≡ some session
    pub segments : AreSegments gs
    pub plain : no_brace tail ≡ true
    pub known : Knows env gs r.store
    pub no_escape : IsQuiet env b'\\' escaped_placeholder_rx (unmasked_text escape gs tail)
    pub no_underscore : IsQuiet env b'_' loose_placeholder_rx (unmasked_text escape gs tail)

  -- A key that is spared, or one that the passes leave as it is.
  abbrev pub KeepsKey : Text → Restoring SessionStore → Type 0
  KeepsKey k r = (may_hold_token k ≡ false) ⊎ (restore_final env k false r ≡ (k, r))

  -- The store and the counts after the look-ups of a tree, in its order.
  unfoldable mutual
    unfolding restored_all

    pub after_tree : Hidden → Restoring SessionStore → Restoring SessionStore
    after_tree nothing r = r
    after_tree (flag b) r = r
    after_tree (count n) r = r
    after_tree (words gs tail) r = restored_all env gs r
    after_tree (list hs) r = after_items hs r
    after_tree (dict ms) r = after_fields ms r

    pub after_items : Hiddens → Restoring SessionStore → Restoring SessionStore
    after_items no_more r = r
    after_items (also h hs) r = after_items hs (after_tree h r)

    pub after_fields : Members → Restoring SessionStore → Restoring SessionStore
    after_fields no_members r = r
    after_fields (member k h ms) r = after_fields ms (after_tree h r)

  -- A tree within the depth limit whose texts are restorable, one after the other, and whose objects
  -- have unique keys that are left alone.
  unfoldable mutual
    unfolding after_tree

    pub TreeRestorable : Bool → Hidden → ℕ → Restoring SessionStore → Type 0
    TreeRestorable escape nothing depth r = depth ≤ restore_max_depth
    TreeRestorable escape (flag b) depth r = depth ≤ restore_max_depth
    TreeRestorable escape (count n) depth r = depth ≤ restore_max_depth
    TreeRestorable escape (words gs tail) depth r =
        (depth ≤ restore_max_depth) × IsRestorable escape gs tail r
    TreeRestorable escape (list hs) depth r =
        (depth ≤ restore_max_depth) × ItemsRestorable hs (depth + 1) r
    TreeRestorable escape (dict ms) depth r =
        (depth ≤ restore_max_depth)
        × UniqueKeys (unmasked_fields ms)
        × FieldsRestorable ms (depth + 1) r

    pub ItemsRestorable : Hiddens → ℕ → Restoring SessionStore → Type 0
    ItemsRestorable no_more depth r = Unit
    ItemsRestorable (also h hs) depth r =
        TreeRestorable false h depth r × ItemsRestorable hs depth (after_tree h r)

    pub FieldsRestorable : Members → ℕ → Restoring SessionStore → Type 0
    FieldsRestorable no_members depth r = Unit
    FieldsRestorable (member k h ms) depth r =
        TreeRestorable (contains json_str_keys k) h depth r
        × KeepsKey k (after_tree h r)
        × FieldsRestorable ms depth (after_tree h r)

  pub restored_words :
      (escape : Bool) (gs : List Segment) (tail : Text) (r : Restoring SessionStore)
      → IsRestorable escape gs tail r
      → restore_string (restore_final env) (masked_text gs tail) escape r
        ≡ (string (unmasked_text escape gs tail), restored_all env gs r)
  unfolding restore_string
  restored_words escape gs tail r i =
      rw
        (restore_final-masked_text env escape gs tail r i.session i.scanned i.opened i.segments
          i.plain i.known i.no_escape i.no_underscore)
        refl

  pub restore_key-kept :
      (siblings out : Fields) (k : Text) (r : Restoring SessionStore)
      → KeepsKey k r
      → restore_key (restore_final env) siblings out k r ≡ (k, r)
  unfolding restore_key chosen_key
  restore_key-kept siblings out k r (inl spared) = rw spared refl
  restore_key-kept siblings out k r (inr same) = elim (Bool-cases (may_hold_token k)) [
    | inl may ↦ rw (may, same) (rw ((text_eq_iff k k).1 refl) refl)
    | inr may_not ↦ rw may_not refl
  ]

  pub restored_member :
      (k : Text) (h : Hidden) (depth : ℕ) (r : Restoring SessionStore)
      → TreeRestorable (contains json_str_keys k) h depth r
      → (TreeRestorable false h depth r
          → restore_tree (restore_final env) (masked_tree h) depth r
            ≡ (unmasked_tree false h, after_tree h r))
      → restore_member (restore_final env) k (masked_tree h) depth r
        ≡ (unmasked_tree (contains json_str_keys k) h, after_tree h r)
  unfolding restore_member masked_tree unmasked_tree after_tree TreeRestorable
  restored_member k nothing depth r i tree = tree i
  restored_member k (flag b) depth r i tree = tree i
  restored_member k (count n) depth r i tree = tree i
  restored_member k (words gs tail) depth r (d, i) tree =
      restored_words (contains json_str_keys k) gs tail r i
  restored_member k (list hs) depth r i tree = tree i
  restored_member k (dict ms) depth r i tree = tree i
