-- ===== src/Tests/Blob.antt =====
-- src/mask/blob.rs at concrete inputs.
use maskit_rs.Base.{ℕ, ◌≡◌, refl, true, false, none, some, Text, [], ◌∷◌, codes}
use maskit_rs.Blob.{default_policy, is_skippable_str, looks_like_large_base64}
use maskit_rs.Blob.Extract.{Extraction, extract, reinject_checked}
use maskit_rs.Blob.Extract.Cuts.{Extracted, extract-Cut}

short_uri : is_skippable_str (codes "data:image/png;base64,QQ==") default_policy ≡ true
unfolding default_policy is_skippable_str
short_uri = refl

plain_text : is_skippable_str (codes "plain text") default_policy ≡ false
unfolding default_policy is_skippable_str
plain_text = refl

large_base64 : looks_like_large_base64 (codes "QUJD+1Zb/w==") 8 ≡ true
unfolding looks_like_large_base64
large_base64 = refl

padded_inside : looks_like_large_base64 (codes "QUJD=1Zb/w==") 8 ≡ false
unfolding looks_like_large_base64
padded_inside = refl

-- A key and a value of the same form: only the value leaves.
abbrev sent : Text
sent = codes "{\"data:;base64,QQ\": \"data:;base64,QQ\"}"

abbrev extracted : Extraction
extracted = record {
  body = codes "{\"data:;base64,QQ\": \"kmb-00ff-000000\"}";
  blobs = record { token = codes "kmb-00ff-000000"; content = codes "data:;base64,QQ" } ∷ [];
  skipped_bytes = 15;
}

abbrev draw : ℕ → Text
draw i = codes "00ff"

extract-Cut_example : Extracted (λ bytes. true) default_policy sent extracted
unfolding default_policy extract
extract-Cut_example = extract-Cut (λ bytes. true) draw sent default_policy extracted refl

put_back : reinject_checked (λ bytes. bytes) extracted.body extracted.blobs ≡ some sent
unfolding reinject_checked
put_back = refl

-- A token that the masking has changed.
token_lost : reinject_checked (λ bytes. bytes) (codes "{}") extracted.blobs ≡ none
unfolding reinject_checked
token_lost = refl
