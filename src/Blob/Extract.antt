-- ===== src/Blob/Extract.antt =====
-- src/mask/blob.rs, `extract` and `reinject_checked`: payloads leave the body before it is parsed.
pub mod Cuts
use maskit_rs.Base.{
  ℕ, zero, suc, ◌+◌, ◌-◌, Bool, true, false, not, ◌&&◌, ◌||◌, Option, none, some, Text, List, [],
  ◌∷◌, ◌++◌, codes, is_empty, length, drop, replicate, ltb, ◌==◌, if◌then◌else◌,
}
use maskit_rs.Str.{show_nat, contains_str, strip_prefix}
use maskit_rs.Blob.{BlobPolicy, classify_bytes, is_off, is_some_kind}

pub record Blob : Type 0 where
  pub token : Text
  pub content : List ℕ

pub record Extraction : Type 0 where
  pub body : List ℕ
  pub blobs : List Blob
  pub skipped_bytes : ℕ

-- The bytes of a string literal up to its closing quote, and those behind the quote.
unfoldable pub scan_string_end : List ℕ → Option (List ℕ × List ℕ)
scan_string_end [] = none
scan_string_end (b ∷ []) = if b == b'"' then some ([], []) else none
scan_string_end (b ∷ c ∷ raw) =
    let past = scan_string_end (c ∷ raw) in
    let past_escape = scan_string_end raw in
    if b == b'"'
    then some ([], c ∷ raw)
    else if b == b'\\'
    then (elim past_escape [ none ↦ none | some (content, rest) ↦ some (b ∷ c ∷ content, rest) ])
    else (elim past [ none ↦ none | some (content, rest) ↦ some (b ∷ content, rest) ])

abbrev pub is_json_ws : ℕ → Bool
is_json_ws b = b == b' ' || b == 0x9 || b == 0xA || b == 0xD

-- The next byte that is no white space is a colon.
unfoldable pub is_key_end : List ℕ → Bool
is_key_end [] = false
is_key_end (b ∷ raw) = let later = is_key_end raw in if is_json_ws b then later else b == b':'

-- `{:06}`
unfoldable pub six_digits : ℕ → Text
unfolding show_nat
six_digits n = replicate (6 - length (show_nat n)) b'0' ++ show_nat n

unfoldable pub blob_token : Text → ℕ → Text
unfolding six_digits
blob_token nonce index = codes "kmb-" ++ (nonce ++ (codes "-" ++ six_digits index))

-- Bytes that are copied in front of what the rest gives.
abbrev pub copied : List ℕ → Option Extraction → Option Extraction
copied bytes none = none
copied bytes (some x) = some (record x { body = bytes ++ x.body })

-- A payload whose token, in quotes, stands in front of what the rest gives.
abbrev pub taken_out : Text → List ℕ → Option Extraction → Option Extraction
taken_out token content none = none
taken_out token content (some x) = some (record {
  body = b'"' ∷ (token ++ b'"' ∷ x.body);
  blobs = record { token = token; content = content } ∷ x.blobs;
  skipped_bytes = length content + x.skipped_bytes;
})

module _ (is_utf8 : List ℕ → Bool) (p : BlobPolicy) (nonce : Text) where
  unfoldable pub is_blob_value : List ℕ → List ℕ → Bool
  unfolding is_key_end classify_bytes
  is_blob_value content rest =
      not (is_key_end rest) && (is_some_kind (classify_bytes content p) && is_utf8 content)

  -- The loop, from the payload of that index on, with fuel for the bytes; `none` where a string has
  -- no end.
  unfoldable pub extract_from : ℕ → ℕ → List ℕ → Option Extraction
  unfolding scan_string_end is_blob_value blob_token
  extract_from zero index raw = some (record { body = raw; blobs = []; skipped_bytes = 0 })
  extract_from (suc fuel) index [] = some (record { body = []; blobs = []; skipped_bytes = 0 })
  extract_from (suc fuel) index (b ∷ raw) =
      let onward = copied (b ∷ []) (extract_from fuel index raw) in
      let past = (λ (content rest : List ℕ).
        copied (b'"' ∷ (content ++ b'"' ∷ [])) (extract_from fuel index rest)) in
      let out = (λ (content rest : List ℕ).
        taken_out (blob_token nonce index) content (extract_from fuel (index + 1) rest)) in
      if b == b'"'
      then (elim (scan_string_end raw) [
        | none ↦ none
        | some (content, rest) ↦
            if is_blob_value content rest then out content rest else past content rest
      ])
      else onward

-- The first of four random numbers that the body does not hold, as text.
unfoldable pub nonce_from : ℕ → (ℕ → Text) → List ℕ → Option Text
unfolding contains_str
nonce_from zero draw raw = none
nonce_from (suc more) draw raw =
    let later = nonce_from more (λ i. draw (i + 1)) raw in
    if is_empty (draw 0) || not (contains_str (draw 0) raw) then some (draw 0) else later

unfoldable pub gen_nonce : (ℕ → Text) → List ℕ → Option Text
unfolding nonce_from
gen_nonce draw raw = nonce_from 4 draw raw

abbrev pub with_blobs : Option Extraction → Option Extraction
with_blobs none = none
with_blobs (some x) = if is_empty x.blobs then none else some x

unfoldable pub extract : (List ℕ → Bool) → (ℕ → Text) → List ℕ → BlobPolicy → Option Extraction
unfolding extract_from gen_nonce
extract is_utf8 draw raw p =
    if not p.enabled || is_off p.mode || is_empty raw
    then none
    else if not (is_utf8 raw)
    then none
    else elim (gen_nonce draw raw) [
      | none ↦ none
      | some nonce ↦ with_blobs (extract_from is_utf8 p nonce (length raw) 0 raw)
    ]

-- `str::replace` of a text that is not empty, with fuel for the characters
unfoldable pub replace_from : ℕ → Text → Text → Text → Text
unfolding strip_prefix
replace_from zero from to s = s
replace_from (suc fuel) from to [] = []
replace_from (suc fuel) from to (c ∷ s) =
    let onward = c ∷ replace_from fuel from to s in
    let past = (λ (rest : Text). to ++ replace_from fuel from to rest) in
    elim (strip_prefix from (c ∷ s)) [ none ↦ onward | some rest ↦ past rest ]

-- `none` where a token is not there any more.
unfoldable pub reinject_checked : (List ℕ → Text) → Text → List Blob → Option Text
unfolding replace_from contains_str
reinject_checked from_utf8_lossy text [] = some text
reinject_checked from_utf8_lossy text (b ∷ blobs) =
    let rest =
      reinject_checked from_utf8_lossy
        (replace_from (length text) b.token (from_utf8_lossy b.content) text) blobs in
    if contains_str b.token text then rest else none

unfoldable pub reinject : (List ℕ → Text) → Text → List Blob → Text
unfolding reinject_checked
reinject from_utf8_lossy text blobs = elim (reinject_checked from_utf8_lossy text blobs) [
  | some t ↦ t
  | none ↦ text
]
