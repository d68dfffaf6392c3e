-- ===== src/Tests/Dialog.antt =====
-- src/mask/tree.rs, `extract_dialog_text`, at concrete inputs.
use maskit_rs.Tree.Dialog.{is_text_key}
use maskit_rs.Regex.{find}
use maskit_rs.Base.{false, ◌+◌, ◌≤◌, ◌≡◌, refl, [], ◌∷◌, ◌++◌, codes, length, take}
use maskit_rs.Json.{Value, string, array, object, no_items, item, no_fields, field}
use maskit_rs.Tree.Dialog.{
  dialog_max_chars, cut_mark, extract_dialog_text, extract_model, collect_placeholder_tokens,
}
use maskit_rs.Tree.Dialog.Texts.{texts, lines, extract_dialog_text-lines}

abbrev sent : Value
sent = object (
    field (codes "model") (string (codes "m-1")) (
      field (codes "messages")
        (array (
          item
            (object (
              field (codes "role") (string (codes "system"))
                (field (codes "content") (string (codes "be short")) no_fields)))
            (item
              (object (
                field (codes "role") (string (codes "user")) (
                  field (codes "content")
                    (array (item (string (codes " ")) (item (string (codes "call 5")) no_items)))
                    no_fields)))
              no_items)))
        no_fields))

model_text : extract_model sent ≡ codes "m-1"
unfolding extract_model is_text_key
model_text = refl

dialog : extract_dialog_text sent ≡ codes "be short" ++ 0xA ∷ codes "call 5"
unfolding extract_dialog_text
dialog = refl

tokens_found :
    collect_placeholder_tokens (codes "a {{PHONE_kkmmnp}} b {{X}}") ≡ codes "{{PHONE_kkmmnp}}" ∷ []
unfolding find collect_placeholder_tokens
tokens_found = refl

extract_dialog_text-lines_example :
    (take dialog_max_chars (extract_dialog_text sent)
      ≡ take dialog_max_chars (lines [] (texts false sent 0)))
    × (length (extract_dialog_text sent) ≤ dialog_max_chars + length cut_mark)
extract_dialog_text-lines_example = extract_dialog_text-lines sent
