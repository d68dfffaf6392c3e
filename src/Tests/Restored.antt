-- ===== src/Tests/Restored.antt =====
-- src/mask/tree.rs and src/mask/engine.rs together: the restoring of a tree, with the recogniser of
-- payloads of src/mask/blob.rs.
use maskit_rs.Placeholder.{escaped_placeholder_rx}
use maskit_rs.Str.{trim_start_matches}
use maskit_rs.Str.{is_whitespace}
use maskit_rs.Str.{to_digit}
use maskit_rs.Str.{to_ascii_lowercase}
use maskit_rs.Str.{to_ascii_uppercase}
use maskit_rs.Str.{split_at}
use maskit_rs.Str.{byte_len}
use maskit_rs.Str.{as_bytes}
use maskit_rs.Str.{utf8}
use maskit_rs.Exemptions.Tables.{protocol_words}
use maskit_rs.Exemptions.Tables.{json_str_keys}
use maskit_rs.Exemptions.Tables.{skip_numeric_keys}
use maskit_rs.Exemptions.Tables.{business_keys}
use maskit_rs.Exemptions.Tables.{skip_scalar_keys}
use maskit_rs.Tree.Restore.{restore_member}
use maskit_rs.Tree.Restore.{restore_string}
use maskit_rs.Tree.Restore.{count_unresolved}
use maskit_rs.Blob.{classify_bytes}
use maskit_rs.Blob.{looks_like_large_base64}
use maskit_rs.Blob.{wants_bare_base64}
use maskit_rs.Blob.{wants_data_uri}
use maskit_rs.Blob.{from_config}
use maskit_rs.Engine.Pass.{Knows}
use maskit_rs.Engine.Pass.{unmasked_text}
use maskit_rs.Engine.Pass.{masked_text}
use maskit_rs.Engine.{count_orphans}
use maskit_rs.Engine.{restore_pass_loose}
use maskit_rs.Engine.{replace_loose}
use maskit_rs.Engine.{replace_braced}
use maskit_rs.Engine.{lookup_with_db}
use maskit_rs.Store.Resolve.{lookup_token}
use maskit_rs.Store.Resolve.{first_hit}
use maskit_rs.Store.Resolve.{unwrap}
use maskit_rs.Store.Resolve.{session_rev}
use maskit_rs.Store.Resolve.{clear_text}
use maskit_rs.Placeholder.{braced_placeholder_rx}
use maskit_rs.Placeholder.{placeholder_rx}
use maskit_rs.Placeholder.{new_token}
use maskit_rs.Placeholder.{canonicalize}
use maskit_rs.Placeholder.{format_token}
use maskit_rs.Regex.{find}
use maskit_rs.Regex.{is_match}
use maskit_rs.Base.Map.{has_key}
use maskit_rs.Base.Map.{lookup}
use maskit_rs.Base.Map.{text_eq}
use maskit_rs.Json.{put}
use maskit_rs.Json.{contains_key}
use maskit_rs.Base.{◌≡◌, refl, Text, false, true, [], ◌∷◌, codes, inl, inr, arith}
use maskit_rs.Json.{pos_int}
use maskit_rs.Blob.{is_skippable_str, default_policy}
use maskit_rs.Engine.{RestoreEnv, RestoreStats, restore_final}
use maskit_rs.Engine.{has}
use maskit_rs.Engine.Find.{no_brace}
use maskit_rs.Tree.Restore.{restore_tree}
use maskit_rs.Tree.Restore.Tokens.{
  Hidden, words, dict, list, also, no_more, count, member, no_members, masked_tree, unmasked_tree,
  after_tree, TreeRestorable, IsRestorable,
}
use maskit_rs.Tree.Restore.Tokens.Restored.{restore_tree-masked_tree}
use maskit_rs.Engine.Pass.{Segment}
use maskit_rs.Store.{SessionStore, new_store}
use maskit_rs.Tests.Engine.{env, session, at, phone}

abbrev payload_env : RestoreEnv
payload_env = record env { is_skippable_str = λ s. is_skippable_str s default_policy }

-- A value that a JSON string writes with escapes.
abbrev person : Segment
person = record {
  front = codes "by ";
  lab = codes "NAME";
  sfx = codes "kkmmnp";
  orig = codes "Jo \"J\" Doe";
}

abbrev two_values : SessionStore
two_values = record new_store {
  sessions =
      (
        codes "s",
        record session { rev = (codes "{{NAME_kkmmnp}}", codes "Jo \"J\" Doe") ∷ session.rev },
      )
      ∷ [];
}

-- A tool call of an answer: a text, arguments that are JSON in a text, a list and a number.
abbrev answer : Hidden
answer = dict (
    member (codes "content") (words (phone ∷ []) (codes "!")) (
      member (codes "arguments") (words (person ∷ []) []) (
        member (codes "items")
          (list (also (words (phone ∷ []) (codes " now")) (also (count (pos_int 7)) no_more)))
          no_members)))

phone-IsRestorable :
    (tail : Text) (stats : RestoreStats)
    → payload_env.is_skippable_str (masked_text (phone ∷ []) tail) ≡ false
    → no_brace tail ≡ true
    → has payload_env b'\\' (unmasked_text false (phone ∷ []) tail) ≡ false
    → has payload_env b'_' (unmasked_text false (phone ∷ []) tail) ≡ false
    → IsRestorable payload_env false
        (phone ∷ [])
        tail
        (record { stats = stats; store = two_values })
unfolding text_eq lookup is_match format_token placeholder_rx clear_text session_rev unwrap
    first_hit lookup_token replace_loose Knows
phone-IsRestorable tail stats scanned plain no_escape no_underscore = record {
  scanned = scanned;
  session = _;
  opened = refl;
  segments = (
    (record {
      plain = refl;
      label = record { nonempty = omega arith; bounded = omega arith; chars = refl };
      suffix = record { six = refl; chars = refl };
    }),
    tt,
  );
  plain = plain;
  known = (refl, tt);
  no_escape = inl no_escape;
  no_underscore = inl no_underscore;
}

-- The escapes hold a backslash, and no token.
person-IsRestorable :
    (stats : RestoreStats)
    → IsRestorable payload_env true (person ∷ []) [] (record { stats = stats; store = two_values })
unfolding text_eq lookup is_match find format_token placeholder_rx escaped_placeholder_rx clear_text
    session_rev unwrap first_hit lookup_token replace_loose masked_text unmasked_text Knows
    default_policy is_skippable_str
person-IsRestorable stats = record {
  scanned = refl;
  session = _;
  opened = refl;
  segments = (
    (record {
      plain = refl;
      label = record { nonempty = omega arith; bounded = omega arith; chars = refl };
      suffix = record { six = refl; chars = refl };
    }),
    tt,
  );
  plain = refl;
  known = (refl, tt);
  no_escape = inr refl;
  no_underscore = inl refl;
}

written_escaped : unmasked_text true (person ∷ []) [] ≡ codes "by Jo \\\"J\\\" Doe"
unfolding unmasked_tree
written_escaped = refl

answer_restored :
    (restore_tree (restore_final payload_env) (masked_tree answer) 0 (at two_values)).0
    ≡ unmasked_tree false answer
unfolding put text_eq lookup is_match find canonicalize placeholder_rx braced_placeholder_rx
    clear_text session_rev unwrap first_hit lookup_token lookup_with_db replace_braced restore_final
    default_policy is_skippable_str restore_tree masked_tree unmasked_tree json_str_keys
    escaped_placeholder_rx
answer_restored = refl

restore_tree-masked_tree_example :
    restore_tree (restore_final payload_env) (masked_tree answer) 0 (at two_values)
    ≡ (unmasked_tree false answer, after_tree payload_env answer (at two_values))
unfolding contains_key text_eq has_key is_match new_token placeholder_rx clear_text session_rev
    unwrap first_hit lookup_token replace_loose restore_pass_loose count_orphans default_policy
    from_config wants_data_uri wants_bare_base64 looks_like_large_base64 classify_bytes
    is_skippable_str count_unresolved restore_string restore_member restore_tree masked_tree
    unmasked_tree after_tree TreeRestorable skip_scalar_keys business_keys skip_numeric_keys
    json_str_keys protocol_words utf8 as_bytes byte_len split_at to_ascii_uppercase
    to_ascii_lowercase to_digit is_whitespace trim_start_matches
restore_tree-masked_tree_example = restore_tree-masked_tree payload_env answer 0 (at two_values) (
  omega arith,
  (refl, (refl, (refl, tt))),
  (
    (omega arith, phone-IsRestorable (codes "!") _ refl refl refl refl),
    inl refl,
    (
      (omega arith, person-IsRestorable _),
      inl refl,
      (
        (
          omega arith,
          (
            (omega arith, phone-IsRestorable (codes " now") _ refl refl refl refl),
            (omega arith, tt),
          ),
        ),
        inl refl,
        tt,
      ),
    ),
  ),
)
