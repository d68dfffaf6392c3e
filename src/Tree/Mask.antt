-- ===== src/Tree/Mask.antt =====
-- src/mask/tree.rs, `mask_tree`, over the masking of one text (`MaskCtx::mask`, which reads and
-- writes the store) and the two tests of `MaskCtx` and src/mask/blob.rs on a text.
pub mod Depth
pub mod Unchanged
pub mod Scrubbed
use maskit_rs.Base.{
  ℕ, ◌+◌, ◌^◌, Bool, true, false, not, ◌&&◌, ◌||◌, Option, none, some, Text, List, ◌∷◌, codes,
  contains, any, ltb, if◌then◌else◌,
}
use maskit_rs.Base.Map.{text_eq}
use maskit_rs.Base.Results.{Result, ok, err, Run, pure, fail, ◌>>=◌, ◌>>◌}
use maskit_rs.Str.{show_nat}
use maskit_rs.Json.{
  Number, pos_int, neg_int, float, Value, null, bool, number, string, array, object, Values,
  no_items, item, Fields, no_fields, field, insert_key,
}
use maskit_rs.Exemptions.{leaf_exempt}
use maskit_rs.Exemptions.Tables.{
  business_keys, skip_numeric_keys, skip_subtree_keys, protected_key_names, mask_max_depth,
}

-- The flag `changed`, beside what the context keeps.
pub record Progress (S : Type 0) : Type 0 where
  pub changed : Bool
  pub context : S

abbrev pub json_depth_exceeded : Text
json_depth_exceeded = codes "json_depth_exceeded"

-- The path is innermost first; only its members are asked for.
unfoldable pub in_business : List Text → Bool
in_business path = any (λ k. contains business_keys k) path

-- `key.map(|k| table.contains(k)).unwrap_or(false)`
unfoldable pub key_in : List Text → Option Text → Bool
key_in table none = false
key_in table (some k) = contains table k

unfoldable pub numeric_exempt : Option Text → Option Text → List Text → Bool
unfolding key_in
numeric_exempt key parent path =
    key_in skip_numeric_keys key || leaf_exempt key parent (in_business path)

unfoldable pub skips_subtree : Option Text → List Text → Bool
unfolding key_in
skips_subtree key path = not (in_business path) && key_in skip_subtree_keys key

-- `as_i64`, then `as_f64`, which takes every number; how a float is shown is the argument.
unfoldable pub number_text : (Number → Text) → Number → Text
number_text show_f64 (pos_int n) = if ltb n (2 ^ 63) then show_nat n else show_f64 (pos_int n)
number_text show_f64 (neg_int n) = b'-' ∷ show_nat n
number_text show_f64 (float t) = show_f64 (float t)

unfoldable pub within_depth : {S : Type 0} → ℕ → Run (Progress S) (Unit {0})
within_depth depth = if ltb mask_max_depth depth then fail json_depth_exceeded else pure tt

-- `MaskCtx` by what the walk calls: the masking of a text, the tests of a text, and how a float is
-- shown. `S` is the store, which masking reads and writes.
pub record MaskCtx (S : Type 0) : Type 0 where
  pub mask : Text → S → Text × S
  pub is_blob_token : Text → Bool
  pub is_skippable_str : Text → Bool
  pub show_f64 : Number → Text

module _ {S : Type 0} (ctx : MaskCtx S) where
  -- `ctx.mask`, and the flag where the text is another one
  unfoldable pub mask_text : Text → Run (Progress S) Text
  mask_text s p =
      let (out, c) = ctx.mask s p.context in
      (ok out, record { changed = p.changed || not (text_eq out s); context = c })

  unfoldable pub mask_key : Text → Run (Progress S) Text
  unfolding mask_text
  mask_key k = if contains protected_key_names k then pure k else mask_text k

  unfoldable pub string_exempt : Text → Option Text → Option Text → List Text → Bool
  string_exempt s key parent path =
      ctx.is_blob_token s || (leaf_exempt key parent (in_business path) || ctx.is_skippable_str s)

  unfoldable pub mask_string : Text → Option Text → Option Text → List Text → Run (Progress S) Value
  unfolding mask_text string_exempt
  mask_string s key parent path =
      if string_exempt s key parent path
      then pure (string s)
      else do out ← mask_text s; pure (string out)

  unfoldable pub mask_number :
      Number → Option Text → Option Text → List Text → Run (Progress S) Value
  unfolding mask_text
  mask_number n key parent path = if numeric_exempt key parent path then pure (number n) else do
    out ← mask_text (number_text ctx.show_f64 n)
    pure (if text_eq out (number_text ctx.show_f64 n) then number n else string out)

  unfoldable mutual
    unfolding mask_string mask_number mask_key within_depth skips_subtree

    pub mask_tree : Value → Option Text → Option Text → List Text → ℕ → Run (Progress S) Value
    mask_tree null key parent path depth = do within_depth depth; pure null
    mask_tree (bool b) key parent path depth = do within_depth depth; pure (bool b)
    mask_tree (number n) key parent path depth = do
      within_depth depth
      mask_number n key parent path
    mask_tree (string s) key parent path depth = do
      within_depth depth
      mask_string s key parent path
    mask_tree (array vs) key parent path depth = do
      within_depth depth
      out ← mask_items vs key parent path (depth + 1)
      pure (array out)
    mask_tree (object fs) key parent path depth = do
      within_depth depth
      let masked = (do out ← mask_fields fs key path (depth + 1) no_fields; pure (object out))
      if skips_subtree key path then pure (object fs) else masked

    -- the loop over an array
    pub mask_items : Values → Option Text → Option Text → List Text → ℕ → Run (Progress S) Values
    mask_items no_items key parent path depth = pure no_items
    mask_items (item v vs) key parent path depth = do
      w ← mask_tree v key parent path depth
      ws ← mask_items vs key parent path depth
      pure (item w ws)

    -- the loop over an object, with the map under way
    pub mask_fields : Fields → Option Text → List Text → ℕ → Fields → Run (Progress S) Fields
    mask_fields no_fields key path depth out = pure out
    mask_fields (field k v fs) key path depth out = do
      new_key ← mask_key k
      w ← mask_tree v (some k) key (k ∷ path) depth
      mask_fields fs key path depth (insert_key new_key w out)
