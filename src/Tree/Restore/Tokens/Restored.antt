-- ===== src/Tree/Restore/Tokens/Restored.antt =====
-- src/mask/tree.rs, `restore_tree`, over `restore_final` of src/mask/engine.rs: the way back of a
-- tree.
use mathlib.Core.Path.{subst}
use maskit_rs.Base.{ℕ, ◌+◌, ◌≤◌, ◌≡◌, refl, sym, ap, ◌∙◌, Text, false, ltb, contains, arith}
use maskit_rs.Json.{Value, Values, Fields, array, object, no_fields, field, insert_key}
use maskit_rs.Json.Keys.{UniqueKeys, join, join-no_fields, join-insert_key}
use maskit_rs.Store.{SessionStore}
use maskit_rs.Exemptions.Tables.{json_str_keys, restore_max_depth}
use maskit_rs.Engine.{RestoreEnv, Restoring, restore_final}
use maskit_rs.Tree.Restore.{
  put_restored, restore_tree, restore_items, restore_fields, restore_member,
}
use maskit_rs.Tree.Restore.Entries.{fields_step}
use maskit_rs.Tree.Restore.Tokens.{
  Hidden, nothing, flag, count, words, list, dict, Hiddens, no_more, also, Members, no_members,
  member, masked_tree, masked_items, masked_fields, unmasked_tree, unmasked_items, unmasked_fields,
  after_tree, after_items, after_fields, TreeRestorable, ItemsRestorable, FieldsRestorable,
  KeepsKey, restored_words, restore_key-kept, restored_member,
}

module _ (env : RestoreEnv) where
  put_kept :
      (siblings out : Fields) (k : Text) (v : Value) (r : Restoring SessionStore)
      → KeepsKey env k r
      → put_restored (restore_final env) siblings k (v, r) out ≡ (insert_key k v out, r)
  unfolding put_restored
  put_kept siblings out k v r keep = rw (restore_key-kept env siblings out k r keep) refl

  -- One turn of the loop over an object, where the key stays.
  fields_next :
      (k : Text) (v : Value) (fs siblings out : Fields) (depth : ℕ) (r : Restoring SessionStore)
      (w : Value) (r1 : Restoring SessionStore)
      → restore_member (restore_final env) k v depth r ≡ (w, r1)
      → KeepsKey env k r1
      → restore_fields (restore_final env) (field k v fs) siblings depth out r
        ≡ restore_fields (restore_final env) fs siblings depth (insert_key k w out) r1
  fields_next k v fs siblings out depth r w r1 e keep =
      fields_step (restore_final env) k v fs siblings out depth r
      ∙ ap
          (λ (m : Value × Restoring SessionStore).
            let (out', r') = put_restored (restore_final env) siblings k m out in
            restore_fields (restore_final env) fs siblings depth out' r')
          e
      ∙ ap
          (λ (m : Fields × Restoring SessionStore).
            restore_fields (restore_final env) fs siblings depth m.0 m.1)
          (put_kept siblings out k w r1 keep)

  not_deeper : (depth : ℕ) → depth ≤ restore_max_depth → ltb restore_max_depth depth ≡ false
  not_deeper depth d = ground arith

  array_step :
      (vs : Values) (depth : ℕ) (r : Restoring SessionStore)
      → depth ≤ restore_max_depth
      → restore_tree (restore_final env) (array vs) depth r
        ≡ (let (ws, r') = restore_items (restore_final env) vs (depth + 1) r in (array ws, r'))
  unfolding restore_tree
  array_step vs depth r d = rw (not_deeper depth d) refl

  object_step :
      (fs : Fields) (depth : ℕ) (r : Restoring SessionStore)
      → depth ≤ restore_max_depth
      → restore_tree (restore_final env) (object fs) depth r ≡ (
          let (gs, r') = restore_fields (restore_final env) fs fs (depth + 1) no_fields r in
          (object gs, r'))
  unfolding restore_tree
  object_step fs depth r d = rw (not_deeper depth d) refl

  mutual
    unfolding restore_tree masked_tree unmasked_tree after_tree TreeRestorable join

    tree_restored :
        (h : Hidden) (depth : ℕ) (r : Restoring SessionStore)
        → TreeRestorable env false h depth r
        → restore_tree (restore_final env) (masked_tree h) depth r
          ≡ (unmasked_tree false h, after_tree env h r)
    tree_restored nothing depth r d = ground arith
    tree_restored (flag b) depth r d = ground arith
    tree_restored (count n) depth r d = ground arith
    tree_restored (words gs tail) depth r (d, i) =
        ground (arith, restored_words env false gs tail r i)
    tree_restored (list hs) depth r (d, i) =
        array_step (masked_items hs) depth r d ∙ rw (items_restored hs (depth + 1) r i) refl
    tree_restored (dict ms) depth r (d, u, i) =
        object_step (masked_fields ms) depth r d
        ∙ rw (fields_kept ms (masked_fields ms) no_fields (depth + 1) r i u) refl

    items_restored :
        (hs : Hiddens) (depth : ℕ) (r : Restoring SessionStore)
        → ItemsRestorable env hs depth r
        → restore_items (restore_final env) (masked_items hs) depth r
          ≡ (unmasked_items hs, after_items env hs r)
    items_restored no_more depth r i = refl
    items_restored (also h hs) depth r (i, is) =
        rw (tree_restored h depth r i) (rw (items_restored hs depth (after_tree env h r) is) refl)

    fields_kept :
        (ms : Members) (siblings out : Fields) (depth : ℕ) (r : Restoring SessionStore)
        → FieldsRestorable env ms depth r
        → UniqueKeys (join out (unmasked_fields ms))
        → restore_fields (restore_final env) (masked_fields ms) siblings depth out r
          ≡ (join out (unmasked_fields ms), after_fields env ms r)
    fields_kept no_members siblings out depth r i u = rw (join-no_fields out) refl
    fields_kept (member k h ms) siblings out depth r (i, keep, is) u =
        fields_next k (masked_tree h) (masked_fields ms) siblings out depth r
          (unmasked_tree (contains json_str_keys k) h) (after_tree env h r)
          (restored_member env k h depth r i (tree_restored h depth r)) keep
        ∙ fields_kept ms siblings (insert_key k (unmasked_tree (contains json_str_keys k) h) out)
            depth (after_tree env h r) is
            (subst UniqueKeys
              (sym (
                join-insert_key out k (unmasked_tree (contains json_str_keys k) h)
                  (unmasked_fields ms) u))
              u)
        ∙ ap (λ fs. (fs, after_fields env ms (after_tree env h r)))
            (join-insert_key out k (unmasked_tree (contains json_str_keys k) h) (unmasked_fields ms)
              u)

  -- The way back of a tree: where, within the depth limit, the texts are plain parts and tokens that
  -- are known to the open session, one look-up after the other, and the keys of each object are
  -- unique and left alone by the restoring of a text, the restored tree is the one with the values
  -- in the place of their tokens, escaped below the keys of embedded JSON, and each is counted.
  pub restore_tree-masked_tree :
      (h : Hidden) (depth : ℕ) (r : Restoring SessionStore)
      → TreeRestorable env false h depth r
      → restore_tree (restore_final env) (masked_tree h) depth r
        ≡ (unmasked_tree false h, after_tree env h r)
  restore_tree-masked_tree h depth r i = tree_restored h depth r i
