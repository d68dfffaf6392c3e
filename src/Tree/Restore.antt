-- ===== src/Tree/Restore.antt =====
-- src/mask/tree.rs, `restore_tree`, over the restoring of one text, which reads and writes the store
-- and the statistics.
pub mod Entries
pub mod Tokens
use maskit_rs.Base.{
  ℕ, ◌+◌, Bool, true, false, not, ◌&&◌, ◌||◌, Option, none, some, Text, List, [], ◌∷◌, codes,
  contains, any, ltb, ◌==◌, if◌then◌else◌,
}
use maskit_rs.Base.Map.{text_eq}
use maskit_rs.Engine.{RestoreStats, Restoring}
use maskit_rs.Json.{
  Number, Value, null, bool, number, string, array, object, Values, no_items, item, Fields,
  no_fields, field, insert_key, contains_key,
}
use maskit_rs.Exemptions.Tables.{json_str_keys, restore_max_depth}

unfoldable pub count_unresolved : {S : Type 0} → Restoring S → Restoring S
count_unresolved r = record r { stats = record r.stats { unresolved = r.stats.unresolved + 1 } }

-- The test that spares a call of `restore_final`.
unfoldable pub may_hold_token : Text → Bool
may_hold_token k = any (λ c. c == b'_') k || any (λ c. c == b'{') k

-- The restored key gives way where the object has it already, restored or not.
unfoldable pub chosen_key : Fields → Fields → Text → Text → Text
chosen_key siblings out k restored_key =
    if not (text_eq restored_key k)
      && (contains_key restored_key out || contains_key restored_key siblings)
    then k
    else restored_key

module _ {S : Type 0} (restore_final : Text → Bool → Restoring S → Text × Restoring S) where
  unfoldable pub restore_key : Fields → Fields → Text → Restoring S → Text × Restoring S
  unfolding may_hold_token chosen_key
  restore_key siblings out k r =
      let (restored_key, r') = restore_final k false r in
      if may_hold_token k then (chosen_key siblings out k restored_key, r') else (k, r)

  unfoldable pub put_restored : Fields → Text → Value × Restoring S → Fields → Fields × Restoring S
  unfolding restore_key
  put_restored siblings k (restored, r) out =
      let (new_key, r') = restore_key siblings out k r in (insert_key new_key restored out, r')

  unfoldable pub restore_string : Text → Bool → Restoring S → Value × Restoring S
  restore_string s escape r = let (out, r') = restore_final s escape r in (string out, r')

  unfoldable mutual
    unfolding restore_string put_restored count_unresolved

    pub restore_tree : Value → ℕ → Restoring S → Value × Restoring S
    restore_tree (string s) depth r =
        if ltb restore_max_depth depth
        then (string s, count_unresolved r)
        else restore_string s false r
    restore_tree (array vs) depth r =
        let (ws, r') = restore_items vs (depth + 1) r in
        if ltb restore_max_depth depth then (array vs, count_unresolved r) else (array ws, r')
    restore_tree (object fs) depth r =
        let (gs, r') = restore_fields fs fs (depth + 1) no_fields r in
        if ltb restore_max_depth depth then (object fs, count_unresolved r) else (object gs, r')
    restore_tree v depth r = if ltb restore_max_depth depth then (v, count_unresolved r) else (v, r)

    -- the loop over an array
    pub restore_items : Values → ℕ → Restoring S → Values × Restoring S
    restore_items no_items depth r = (no_items, r)
    restore_items (item v vs) depth r =
        let (w, r') = restore_tree v depth r in
        let (ws, r'') = restore_items vs depth r' in (item w ws, r'')

    -- the loop over an object: all its keys, and the map under way
    pub restore_fields : Fields → Fields → ℕ → Fields → Restoring S → Fields × Restoring S
    restore_fields no_fields siblings depth out r = (out, r)
    restore_fields (field k (string s) fs) siblings depth out r =
        let restored = restore_string s (contains json_str_keys k) r in
        let (out', r') = put_restored siblings k restored out in
        restore_fields fs siblings depth out' r'
    restore_fields (field k v fs) siblings depth out r =
        let (out', r') = put_restored siblings k (restore_tree v depth r) out in
        restore_fields fs siblings depth out' r'

  -- What the loop gives for the value of a key: a text is restored for its key, the rest as a tree.
  unfoldable pub restore_member : Text → Value → ℕ → Restoring S → Value × Restoring S
  unfolding restore_tree restore_string
  restore_member k (string s) depth r = restore_string s (contains json_str_keys k) r
  restore_member k v depth r = restore_tree v depth r
