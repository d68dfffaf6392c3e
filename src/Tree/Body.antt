-- ===== src/Tree/Body.antt =====
-- src/mask/tree.rs, `mask_body`: a request body is parsed, masked, and written back in one of three
-- ways. The parser and the printer of `serde_json`, the search of `aho_corasick` and the decoding
-- of bytes are those of `Formats`.
pub mod Reads
pub mod Splice
pub mod Escaped
use mathlib.Core.List.{flat_map}
use maskit_rs.Base.{
  ℕ, zero, suc, ◌+◌, ◌-◌, ◌*◌, ◌^◌, Bool, true, false, not, ◌&&◌, ◌||◌, Option, none, some, Text,
  List, [], ◌∷◌, ◌++◌, codes, contains, is_empty, length, take, drop, filter, get_or, ltb, leb,
  ◌==◌, if◌then◌else◌,
}
use maskit_rs.Base.Int.{ℤ, pos, negsuc}
use maskit_rs.Base.Map.{text_eq}
use maskit_rs.Base.Results.{Run, pure, ◌>>=◌, ◌>>◌}
use maskit_rs.Str.{as_bytes, byte_len}
use maskit_rs.Json.{Value, null, object, Fields, no_fields, field, insert_key, get_key}
use maskit_rs.Exemptions.Tables.{root_wrap_key, protected_key_names}
use maskit_rs.Tree.Mask.{MaskCtx, Progress, mask_text, mask_tree}
use maskit_rs.Tree.Literal.{json_string_literal, escape_non_ascii}
use maskit_rs.Tree.Duplicates.{detect_duplicate_keys}
use Splice.{
  Hit, splice_max, splice_max_forms, splice_form, splice_forms, insert_form, sort_forms,
  splice_hits, splice_table, key_of, forms_keys,
}

pub record Formats : Type 0 where
  -- `serde_json::from_str`, `to_string` and the equality of values
  pub from_str : Text → Option Value
  pub to_string : Value → Option Text
  pub value_eq : Value → Value → Bool
  -- `String::from_utf8_lossy` and `String::from_utf8`
  pub from_utf8_lossy : List ℕ → Text
  pub from_utf8 : List ℕ → Option Text
  -- `AhoCorasick::build` of patterns, leftmost longest, and `find_iter`
  pub find_iter : List (List ℕ) → Option (List ℕ → List Hit)

-- The context of a request: that of the walk, and what `mask_body` does with the store besides.
pub record BodyCtx (S : Type 0) : Type 0 where
  pub ctx : MaskCtx S
  -- `seed_known`, and the table `fwd` of the session
  pub seed_known : Text → S → S
  pub fwd : S → Option (List (Text × Text))

pub record MaskedBody : Type 0 where
  pub text : Text
  pub changed : Bool
  pub reserialized : Bool
  pub first_diff_byte : ℤ
  pub body_shape : Option Text

abbrev pub first_diff_max : ℕ
first_diff_max = 2 ^ 20

-- The `while` of `first_diff_byte`.
unfoldable pub common_prefix : List ℕ → List ℕ → ℕ
common_prefix [] b = 0
common_prefix (x ∷ a) [] = 0
common_prefix (x ∷ a) (y ∷ b) = let more = common_prefix a b in if x == y then suc more else 0

unfoldable pub first_diff_byte : List ℕ → List ℕ → ℤ
unfolding common_prefix
first_diff_byte a b =
    if ltb first_diff_max (length a) || ltb first_diff_max (length b)
    then negsuc 0
    else pos (common_prefix a b)

-- `raw.windows(2).any(|w| w == b"\\u")`
unfoldable pub has_u_escape : List ℕ → Bool
has_u_escape [] = false
has_u_escape (a ∷ []) = false
has_u_escape (a ∷ b ∷ raw) = (a == b'\\' && b == b'u') || has_u_escape (b ∷ raw)

abbrev pub null_or : Option Value → Value
null_or none = null
null_or (some v) = v

-- The pairs of the session whose token is there.
unfoldable pub splice_pairs : List (Text × Text) → List (Text × Text)
splice_pairs fwd = filter (λ e. not (is_empty e.1)) fwd

abbrev pub body_as_is : Text → Option Text → MaskedBody
body_as_is text shape = record {
  text = text;
  changed = false;
  reserialized = false;
  first_diff_byte = negsuc 0;
  body_shape = shape;
}

abbrev diff_of : Text → Text → ℤ
diff_of text out_text =
    if text_eq out_text text then negsuc 0 else first_diff_byte (as_bytes text) (as_bytes out_text)

abbrev is_none : Option Text → Bool
is_none none = true
is_none (some _) = false

unfoldable pub body_shape_of : Value → Option Text
body_shape_of (object fs) = none
body_shape_of _ = some (codes "non_object_root")

-- `changed` begins as false.
abbrev pub untouched : {S : Type 0} → S → Progress S
untouched s = record { changed = false; context = s }

module _ (f : Formats) where
  unfoldable pub splice_mask : List ℕ → List (Text × Text) → Option (List ℕ)
  unfolding splice_table sort_forms splice_hits
  splice_mask raw pairs =
      let table = sort_forms (splice_table pairs) in
      if is_empty pairs || is_empty raw || ltb splice_max (length raw)
      then none
      else if is_empty table || ltb splice_max_forms (length table)
      then none
      else elim (f.find_iter (forms_keys table)) [
        | none ↦ none
        | some search ↦
            if is_empty (search raw) then none else some (splice_hits table 0 (search raw) raw)
      ]

  unfoldable pub serialize_compact : Value → Bool → Text
  serialize_compact v ascii =
      let s : Text = elim (f.to_string v) [ none ↦ [] | some t ↦ t ] in
      if ascii then escape_non_ascii s else s

  -- The spliced text, if it still says what the masked tree says.
  unfoldable pub checked_splice : Value → List ℕ → Option Text
  checked_splice masked_root spliced = elim (f.from_utf8 spliced) [
    | none ↦ none
    | some s ↦ elim (f.from_str s) [
      | none ↦ none
      | some v ↦ if f.value_eq v masked_root then some s else none
    ]
  ]

  unfoldable pub spliced_text : Bool → List ℕ → Option (List (Text × Text)) → Value → Option Text
  unfolding splice_mask checked_splice splice_pairs
  spliced_text true raw fwd masked_root = none
  spliced_text false raw none masked_root = none
  spliced_text false raw (some fwd) masked_root = elim (splice_mask raw (splice_pairs fwd)) [
    | none ↦ none
    | some spliced ↦ checked_splice masked_root spliced
  ]

  -- The text that goes out: spliced if that is possible, else printed anew.
  unfoldable pub out_text : List ℕ → Value → Option Text → Text
  unfolding serialize_compact has_u_escape
  out_text raw masked_root (some s) = s
  out_text raw masked_root none = serialize_compact masked_root (has_u_escape raw)

  module _ {S : Type 0} (b : BodyCtx S) where
    unfoldable pub mask_root_key : Text → Run (Progress S) Text
    unfolding mask_text
    mask_root_key k =
        if text_eq k root_wrap_key || contains protected_key_names k
        then pure k
        else mask_text b.ctx k

    -- The loop over the keys of the body.
    unfoldable pub mask_root_fields : Fields → Fields → Run (Progress S) Fields
    unfolding mask_root_key
    mask_root_fields no_fields renamed = pure renamed
    mask_root_fields (field k v fs) renamed = do
      new_key ← mask_root_key k
      masked_v ← mask_tree b.ctx v (some k) none [] 0
      mask_root_fields fs (insert_key new_key masked_v renamed)

    -- A root that is no object stands under a key of its own while it is masked.
    unfoldable pub mask_root : Value → Run (Progress S) Value
    unfolding mask_root_fields
    mask_root (object fs) = do renamed ← mask_root_fields fs no_fields; pure (object renamed)
    mask_root v = do
      renamed ← mask_root_fields (field root_wrap_key v no_fields) no_fields
      pure (null_or (get_key root_wrap_key renamed))

    unfoldable pub seed : Text → Run (Progress S) (Unit {0})
    seed t p = pure tt (record p { context = b.seed_known t p.context })

    -- The body of a text that is no JSON.
    unfoldable pub mask_plain : Text → Run (Progress S) MaskedBody
    unfolding mask_text seed
    mask_plain text = do
      out ← mask_text b.ctx text
      seed out
      pure (record {
        text = out;
        changed = not (text_eq out text);
        reserialized = false;
        first_diff_byte = negsuc 0;
        body_shape = none;
      })

    unfoldable pub rewritten_body :
        List ℕ → Text → Value → Option Text → Option Text → Run (Progress S) MaskedBody
    unfolding out_text first_diff_byte
    rewritten_body raw text masked_root masked_raw shape = do
      seed (out_text raw masked_root masked_raw)
      pure (record {
        text = out_text raw masked_root masked_raw;
        changed = true;
        reserialized = is_none masked_raw;
        first_diff_byte = diff_of text (out_text raw masked_root masked_raw);
        body_shape = shape;
      })

    -- How the masked tree is written back.
    unfoldable pub write_back_body :
        List ℕ → Text → Bool → Option Text → Value → Run (Progress S) MaskedBody
    unfolding rewritten_body spliced_text
    write_back_body raw text has_dup_keys shape masked_root p =
        if not p.changed && not has_dup_keys
        then (do seed text; pure (body_as_is text shape)) p
        else rewritten_body raw text masked_root
            (spliced_text has_dup_keys raw (b.fwd p.context) masked_root) shape p

    unfoldable pub mask_value : List ℕ → Text → Value → Run (Progress S) MaskedBody
    unfolding mask_root write_back_body
    mask_value raw text value = do
      masked_root ← mask_root value
      write_back_body raw text (detect_duplicate_keys text) (body_shape_of value) masked_root

    unfoldable pub mask_text_body : List ℕ → Text → Run (Progress S) MaskedBody
    unfolding mask_value mask_plain
    mask_text_body raw text =
        if is_empty text then pure (body_as_is text none) else elim (f.from_str text) [
          | none ↦ mask_plain text
          | some value ↦ mask_value raw text value
        ]

    unfoldable pub mask_body : List ℕ → Run S MaskedBody
    unfolding mask_text_body
    mask_body raw s =
        let (r, p) = mask_text_body raw (f.from_utf8_lossy raw) (untouched s) in (r, p.context)
