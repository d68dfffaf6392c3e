-- ===== src/Tests/Body.antt =====
-- src/mask/tree.rs, the bodies and the strings at concrete inputs.
use maskit_rs.Json.{put}
use maskit_rs.Json.{insert_key}
use maskit_rs.Json.{contains_key}
use maskit_rs.Exemptions.Tables.{protected_key_names}
use maskit_rs.Exemptions.Tables.{business_keys}
use maskit_rs.Exemptions.Tables.{correlation_id_keys}
use maskit_rs.Exemptions.Tables.{skip_keys}
use maskit_rs.Exemptions.Tables.{media_value_keys}
use maskit_rs.Exemptions.Tables.{protocol_parents}
use maskit_rs.Exemptions.Tables.{protocol_id_parents}
use maskit_rs.Exemptions.Tables.{role_type_parents}
use maskit_rs.Exemptions.Tables.{skip_subtree_keys}
use maskit_rs.Exemptions.Tables.{skip_scalar_keys}
use maskit_rs.Exemptions.{leaf_exempt}
use maskit_rs.Tree.Mask.{mask_tree}
use maskit_rs.Tree.Mask.{in_business}
use maskit_rs.Tree.Body.Splice.{Hit}
use maskit_rs.Tree.Body.{body_shape_of}
use maskit_rs.Str.{contains_str}
use maskit_rs.Str.{byte_len}
use maskit_rs.Base.{
  ℕ, zero, suc, ◌+◌, ◌≡◌, refl, Bool, true, false, ◌&&◌, ◌||◌, Option, none, some, Text, List, [],
  ◌∷◌, ◌++◌, codes, length, drop, leb, all, all-append, arith, inl, inr, Bool-cases, ap, sym, ◌∙◌,
  if◌then◌else◌,
}
use maskit_rs.Base.Int.{pos}
use maskit_rs.Base.Map.{text_eq, text_eq_iff}
use maskit_rs.Base.Results.{ok}
use maskit_rs.Str.{starts_with, as_bytes}
use maskit_rs.Json.{Value, string, object, no_fields, field}
use maskit_rs.Json.Keys.{HasUniqueKeys}
use maskit_rs.Tree.Literal.{json_string_literal, read_json_string}
use maskit_rs.Tree.Literal.RoundTrip.{read_json_string-json_string_literal}
use maskit_rs.Tree.Duplicates.{detect_duplicate_keys}
use maskit_rs.Tree.Body.{Formats, BodyCtx, MaskedBody, mask_body, mask_root, untouched}
use maskit_rs.Tree.Body.Escaped.{ReadsEscapes}
use maskit_rs.Tree.Body.Reads.{has_float, FormatLaws, Says, mask_body-Says}
use maskit_rs.Tests.Tree.{ctx}

read_json_string-json_string_literal_example :
    read_json_string (json_string_literal (codes "a\"\\b") true ++ codes "\" : 1")
    ≡ (codes "a\"\\b", codes " : 1")
read_json_string-json_string_literal_example =
    read_json_string-json_string_literal true (codes "a\"\\b") (codes " : 1") refl

-- Two keys that differ outside the basic plane, escaped: the reader drops their surrogates.
surrogate_keys : detect_duplicate_keys (codes "{\"\\ud83d\\ude00\":1,\"\\ud83d\\ude01\":2}") ≡ true
unfolding detect_duplicate_keys as_bytes read_json_string text_eq
surrogate_keys = refl

distinct_keys : detect_duplicate_keys (codes "{\"a\":{\"b\":1},\"b\":[\"b\"]}") ≡ false
unfolding detect_duplicate_keys as_bytes read_json_string text_eq
distinct_keys = refl

-- A body with white space, its value, and both after masking.
abbrev sent : Text
sent = codes "{\"content\" : \"secret\"}"

abbrev spliced : Text
spliced = codes "{\"content\" : \"{{TERM_bcdfgh}}\"}"

abbrev printed : Text
printed = codes "{\"content\":\"{{TERM_bcdfgh}}\"}"

abbrev body : Text → Value
body s = object (field (codes "content") (string s) no_fields)

abbrev read : Text → Option Value
read t =
    if text_eq t sent
    then some (body (codes "secret"))
    else if text_eq t spliced || text_eq t printed
    then some (body (codes "{{TERM_bcdfgh}}"))
    else none

-- The equality of bodies of one key with a text.
abbrev same_body : Value → Value → Bool
same_body (object (field k (string s) no_fields)) (object (field j (string t) no_fields)) =
    text_eq k j && text_eq s t
same_body _ _ = false

-- Where the first of the patterns begins, from left to right.
search : ℕ → ℕ → List ℕ → List ℕ → List Hit
search zero at p raw = []
search (suc fuel) at p [] = []
search (suc fuel) at p (b ∷ raw) =
    let found = search fuel (at + length p) p (drop (length p) (b ∷ raw)) in
    let later = search fuel (at + 1) p raw in
    if starts_with p (b ∷ raw)
    then record { start = at; end = at + length p; pattern_index = 0 } ∷ found
    else later

abbrev find_first : List (List ℕ) → Option (List ℕ → List Hit)
find_first [] = none
find_first (p ∷ ps) = some (λ raw. search (length raw) 0 p raw)

abbrev formats : Formats
formats = record {
  from_str = read;
  to_string = λ v. some printed;
  value_eq = same_body;
  from_utf8_lossy = λ bytes. bytes;
  from_utf8 = λ bytes. some bytes;
  find_iter = find_first;
}

abbrev body_ctx : BodyCtx ℕ
body_ctx = record {
  ctx = ctx;
  seed_known = λ t n. n;
  fwd = λ n. some ((codes "secret", codes "{{TERM_bcdfgh}}") ∷ []);
}

abbrev masked : MaskedBody
masked = record {
  text = spliced;
  changed = true;
  reserialized = false;
  first_diff_byte = pos 14;
  body_shape = none;
}

spliced_body : mask_body formats body_ctx sent 0 ≡ (ok masked, 1)
unfolding body_shape_of mask_body in_business mask_tree detect_duplicate_keys json_string_literal
    read_json_string byte_len contains_str text_eq leaf_exempt skip_scalar_keys skip_subtree_keys
    role_type_parents media_value_keys skip_keys correlation_id_keys protected_key_names put search
spliced_body = refl

-- The texts that the parser of the tests knows are ASCII.
abbrev is_ascii : ℕ → Bool
is_ascii c = leb c 0x7F

same_ascii :
    (known t : Text) → all is_ascii known ≡ true → text_eq t known ≡ true → all is_ascii t ≡ true
same_ascii known t h e = ap (all is_ascii) ((text_eq_iff t known).0 e) ∙ h

read-ascii : (t : Text) (v : Value) → read t ≡ some v → all is_ascii t ≡ true
read-ascii t v h = elim (Bool-cases (text_eq t sent)) [
  | inl e ↦ same_ascii sent t refl e
  | inr e ↦ elim (Bool-cases (text_eq t spliced)) [
    | inl f ↦ same_ascii spliced t refl f
    | inr f ↦ elim (Bool-cases (text_eq t printed)) [
      | inl g ↦ same_ascii printed t refl g
      | inr g ↦ absurd (no_text t v h e f g)
    ]
  ]
]
  where
    no_text :
        (t : Text) (v : Value)
        → read t ≡ some v
        → text_eq t sent ≡ false
        → text_eq t spliced ≡ false
        → text_eq t printed ≡ false
        → ⊥
    no_text t v h e f g =
        let nothing : read t ≡ none = rw (e, f, g) refl in
        let clash : none ≡ some v = sym nothing ∙ h in absurd cc

read-escapes : ReadsEscapes read
read-escapes front rest t c v wide scalar escaped h =
    let ascii = read-ascii (front ++ c ∷ rest) v h in
    absurd (ground (arith, all-append is_ascii front (c ∷ rest), ascii))

formats_laws : FormatLaws formats (body (codes "{{TERM_bcdfgh}}"))
unfolding text_eq
formats_laws = record {
  eq_refl = refl;
  print = printed;
  prints = refl;
  chars = refl;
  reads = λ no_float. refl;
  escapes = read-escapes;
}

mask_body-Says_example : Says formats (body (codes "{{TERM_bcdfgh}}")) spliced
unfolding mask_body in_business mask_tree contains_str text_eq leaf_exempt skip_scalar_keys
    skip_subtree_keys role_type_parents media_value_keys skip_keys correlation_id_keys
    protected_key_names contains_key insert_key HasUniqueKeys has_float
mask_body-Says_example =
    mask_body-Says formats (body (codes "{{TERM_bcdfgh}}")) formats_laws refl body_ctx sent 0 1
      (body (codes "secret")) (record { changed = true; context = 1 }) masked refl refl
      ((refl, tt), (tt, tt)) refl spliced_body

-- A field below the key `input` of the body: the path of the walk does not hold that key.
abbrev input_field : Value
input_field = object (
    field (codes "input") (object (field (codes "detail") (string (codes "secret")) no_fields))
      no_fields)

input_detail_kept :
    mask_root formats body_ctx input_field (untouched 0) ≡ (ok input_field, untouched 0)
unfolding mask_body in_business mask_tree text_eq leaf_exempt skip_scalar_keys skip_subtree_keys
    role_type_parents protocol_id_parents protocol_parents media_value_keys skip_keys
    correlation_id_keys business_keys protected_key_names put
input_detail_kept = refl
