-- ===== src/Blob/Extract/Cuts.antt =====
-- src/mask/blob.rs, `extract`: what leaves the body and what stays.
use maskit_rs.Base.{
  ℕ, zero, suc, ◌+◌, ◌≤◌, ◌≡◌, refl, sym, ap, inl, inr, Bool-cases, Option-cases, all, Bool, false,
  true, not, ◌&&◌, ◌||◌, Option, none, some, Text, List, [], ◌∷◌, ◌++◌, append_assoc, is_empty,
  length, length-append, ◌==◌, arith,
}
use mathlib.Core.Path.{subst}
use maskit_rs.Str.{contains_str}
use maskit_rs.Blob.{BlobPolicy, classify_bytes, is_some_kind, is_off}
use maskit_rs.Blob.Extract.{
  Blob, Extraction, is_json_ws, is_key_end, scan_string_end, blob_token, is_blob_value,
  extract_from, extract, copied, taken_out, with_blobs, gen_nonce, nonce_from,
}

-- The bytes between the quotes of one string literal: no quote but behind a backslash.
pub data Literal : List ℕ → Type 0 where
  empty : Literal []
  plain :
      {bytes : List ℕ} (b : ℕ)
      → (b == b'"') ≡ false
      → (b == b'\\') ≡ false
      → Literal bytes
      → Literal (b ∷ bytes)
  escaped : {bytes : List ℕ} (c : ℕ) → Literal bytes → Literal (b'\\' ∷ c ∷ bytes)

-- A colon comes next, behind white space.
abbrev pub Colon : List ℕ → Type 0
Colon raw =
    (spaces : List ℕ) × (later : List ℕ) × (all is_json_ws spaces ≡ true)
    × (raw ≡ spaces ++ b':' ∷ later)

-- The bytes of a body and of what is left of it, from the payload of an index on: outside of string
-- literals bytes are copied, a literal is copied whole, and the content of one that is a payload,
-- and that no colon follows, is exchanged for its token.
pub data Cut (is_utf8 : List ℕ → Bool) (p : BlobPolicy) (nonce : Text)
    : ℕ → List ℕ → List ℕ → List Blob → Type 0 where
  done : {k : ℕ} → Cut is_utf8 p nonce k [] [] []
  copy :
      {k : ℕ} {raw body : List ℕ} {blobs : List Blob} (b : ℕ)
      → (b == b'"') ≡ false
      → Cut is_utf8 p nonce k raw body blobs
      → Cut is_utf8 p nonce k (b ∷ raw) (b ∷ body) blobs
  keep :
      {k : ℕ} {raw body : List ℕ} {blobs : List Blob} (content : List ℕ)
      → Literal content
      → Cut is_utf8 p nonce k raw body blobs
      → Cut is_utf8 p nonce k
          (b'"' ∷ (content ++ b'"' ∷ raw))
          (b'"' ∷ (content ++ b'"' ∷ body))
          blobs
  cut :
      {k : ℕ} {raw body : List ℕ} {blobs : List Blob} (content : List ℕ)
      → Literal content
      → is_some_kind (classify_bytes content p) ≡ true
      → ¬ Colon raw
      → Cut is_utf8 p nonce (k + 1) raw body blobs
      → Cut is_utf8 p nonce k
          (b'"' ∷ (content ++ b'"' ∷ raw))
          (b'"' ∷ (blob_token nonce k ++ b'"' ∷ body))
          (record { token = blob_token nonce k; content = content } ∷ blobs)

abbrev pub content_bytes : List Blob → ℕ
content_bytes [] = 0
content_bytes (b ∷ blobs) = length b.content + content_bytes blobs

-- Where the literal ends, its content and the rest are the bytes, and it is the content of one.
unfoldable Parts : List ℕ → Option (List ℕ × List ℕ) → Type 0
Parts raw none = Unit
Parts raw (some (content, rest)) = (raw ≡ content ++ b'"' ∷ rest) × Literal content

backslash_eq : (b : ℕ) → (b == b'\\') ≡ true → b'\\' ≡ b
backslash_eq b h = ground arith

Parts-escape :
    (b c : ℕ) (raw : List ℕ) (o : Option (List ℕ × List ℕ))
    → (b == b'\\') ≡ true
    → Parts raw o
    → Parts
        (b ∷ c ∷ raw)
        (elim o [ none ↦ none | some (content, rest) ↦ some (b ∷ c ∷ content, rest) ])
unfolding Parts
Parts-escape b c raw none e h = tt
Parts-escape b c raw (some (content, rest)) e (h, l) =
    (ap (λ s. b ∷ c ∷ s) h, subst (λ x. Literal (x ∷ c ∷ content)) (backslash_eq b e) (escaped c l))

Parts-next :
    (b : ℕ) (raw : List ℕ) (o : Option (List ℕ × List ℕ))
    → (b == b'"') ≡ false
    → (b == b'\\') ≡ false
    → Parts raw o
    → Parts (b ∷ raw) (elim o [ none ↦ none | some (content, rest) ↦ some (b ∷ content, rest) ])
unfolding Parts
Parts-next b raw none n m h = tt
Parts-next b raw (some (content, rest)) n m (h, l) = (ap (◌∷◌ b) h, plain b n m l)

quote_eq : (b : ℕ) → (b == b'"') ≡ true → b ≡ b'"'
quote_eq b h = ground arith

Parts-scan_string_end : (raw : List ℕ) → Parts raw (scan_string_end raw)
unfolding scan_string_end Parts
Parts-scan_string_end [] = tt
Parts-scan_string_end (b ∷ []) = elim (Bool-cases (b == b'"')) [
  | inl q ↦ rw (q, Parts) (ap (λ x. x ∷ []) (quote_eq b q), empty)
  | inr n ↦ rw (n, Parts) tt
]
Parts-scan_string_end (b ∷ c ∷ raw) = elim (Bool-cases (b == b'"')) [
  | inl q ↦ rw (q, Parts) (ap (λ x. x ∷ c ∷ raw) (quote_eq b q), empty)
  | inr n ↦ elim (Bool-cases (b == b'\\')) [
    | inl e ↦
        rw (n, e, Parts) (Parts-escape b c raw (scan_string_end raw) e (Parts-scan_string_end raw))
    | inr e ↦
        rw (n, e, Parts)
          (Parts-next b (c ∷ raw) (scan_string_end (c ∷ raw)) n e (Parts-scan_string_end (c ∷ raw)))
  ]
]

Colon-is_key_end :
    (spaces later : List ℕ)
    → all is_json_ws spaces ≡ true
    → is_key_end (spaces ++ b':' ∷ later) ≡ true
unfolding is_key_end
Colon-is_key_end [] later h = refl
Colon-is_key_end (b ∷ spaces) later h = ground (arith, Colon-is_key_end spaces later)

no-Colon : (raw : List ℕ) → is_key_end raw ≡ false → ¬ Colon raw
no-Colon raw h (spaces, later, w, e) =
    let key = Colon-is_key_end spaces later w in absurd (ground (arith, ap is_key_end e, key, h))

literal_parts :
    (raw content rest : List ℕ)
    → scan_string_end raw ≡ some (content, rest)
    → (raw ≡ content ++ b'"' ∷ rest) × Literal content
unfolding Parts
literal_parts raw content rest e = subst (Parts raw) e (Parts-scan_string_end raw)

literal :
    (b : ℕ) (raw content rest : List ℕ)
    → (b == b'"') ≡ true
    → raw ≡ content ++ b'"' ∷ rest
    → b ∷ raw ≡ b'"' ∷ (content ++ b'"' ∷ rest)
literal b raw content rest q e = rw (quote_eq b q) (ap (◌∷◌ b'"') e)

both_tests :
    (key kind valid : Bool) → (not key && (kind && valid)) ≡ true → (key ≡ false) × (kind ≡ true)
both_tests key kind valid h = (ground arith, ground arith)

module _ (is_utf8 : List ℕ → Bool) (p : BlobPolicy) (nonce : Text) where
  -- What is left, where the loop gives a result, and the count of the bytes that are out.
  unfoldable Cuts : ℕ → List ℕ → Option Extraction → Type 0
  Cuts k raw none = Unit
  Cuts k raw (some x) =
      Cut is_utf8 p nonce k raw x.body x.blobs × (x.skipped_bytes ≡ content_bytes x.blobs)

  Cuts-byte :
      (k b : ℕ) (raw : List ℕ) (o : Option Extraction)
      → (b == b'"') ≡ false
      → Cuts k raw o
      → Cuts k (b ∷ raw) (copied (b ∷ []) o)
  unfolding Cuts
  Cuts-byte k b raw none n h = tt
  Cuts-byte k b raw (some x) n (c, s) = (copy b n c, s)

  Cuts-literal :
      (k : ℕ) (content raw : List ℕ) (o : Option Extraction)
      → Literal content
      → Cuts k raw o
      → Cuts k (b'"' ∷ (content ++ b'"' ∷ raw)) (copied (b'"' ∷ (content ++ b'"' ∷ [])) o)
  unfolding Cuts
  Cuts-literal k content raw none l h = tt
  Cuts-literal k content raw (some x) l (c, s) = (
    subst (λ body. Cut is_utf8 p nonce k (b'"' ∷ (content ++ b'"' ∷ raw)) (b'"' ∷ body) x.blobs)
        (sym (append_assoc content (b'"' ∷ []) x.body)) (keep content l c),
    s,
  )

  Cuts-taken_out :
      (k : ℕ) (content raw : List ℕ) (o : Option Extraction)
      → Literal content
      → is_blob_value is_utf8 p nonce content raw ≡ true
      → Cuts (k + 1) raw o
      → Cuts k (b'"' ∷ (content ++ b'"' ∷ raw)) (taken_out (blob_token nonce k) content o)
  unfolding Cuts is_blob_value
  Cuts-taken_out k content raw none l v h = tt
  Cuts-taken_out k content raw (some x) l v (c, s) =
      let (open_end, kind) =
        both_tests (is_key_end raw) (is_some_kind (classify_bytes content p)) (is_utf8 content) v in
      (cut content l kind (no-Colon raw open_end) c, omega (arith, s))

  Cuts-extract_from :
      (fuel k : ℕ) (raw : List ℕ)
      → length raw ≤ fuel
      → Cuts k raw (extract_from is_utf8 p nonce fuel k raw)
  unfolding extract_from Cuts
  Cuts-extract_from zero k [] h = (done, refl)
  Cuts-extract_from zero k (b ∷ raw) h = absurd (omega arith)
  Cuts-extract_from (suc fuel) k [] h = (done, refl)
  Cuts-extract_from (suc fuel) k (b ∷ raw) h = elim (Bool-cases (b == b'"')) [
    | inr n ↦ rw n (
        Cuts-byte k b raw (extract_from is_utf8 p nonce fuel k raw) n
          (Cuts-extract_from fuel k raw (omega arith)))
    | inl q ↦ elim (Option-cases (scan_string_end raw)) [
      | inl e ↦ rw (q, e, Cuts) tt
      | inr ((content, rest), e) ↦
          let (parts, lit) = literal_parts raw content rest e in
          let shorter : length rest ≤ fuel =
            omega (arith, ap length parts, length-append content (b'"' ∷ rest)) in
          elim (Bool-cases (is_blob_value is_utf8 p nonce content rest)) [
            | inl v ↦
                rw (q, e, v)
                  (subst
                    (λ l. Cuts k l (
                      taken_out (blob_token nonce k) content
                        (extract_from is_utf8 p nonce fuel (k + 1) rest)))
                    (sym (literal b raw content rest q parts))
                    (Cuts-taken_out k content rest (extract_from is_utf8 p nonce fuel (k + 1) rest)
                      lit v (Cuts-extract_from fuel (k + 1) rest shorter)))
            | inr v ↦
                rw (q, e, v)
                  (subst
                    (λ l. Cuts k l (
                      copied (b'"' ∷ (content ++ b'"' ∷ []))
                        (extract_from is_utf8 p nonce fuel k rest)))
                    (sym (literal b raw content rest q parts))
                    (Cuts-literal k content rest (extract_from is_utf8 p nonce fuel k rest) lit
                      (Cuts-extract_from fuel k rest shorter)))
          ]
    ]
  ]

  Cuts-with_blobs :
      (k : ℕ) (raw : List ℕ) (o : Option Extraction) → Cuts k raw o → Cuts k raw (with_blobs o)
  unfolding Cuts
  Cuts-with_blobs k raw none h = tt
  Cuts-with_blobs k raw (some x) h = elim (Bool-cases (is_empty x.blobs)) [
    | inl e ↦ rw (e, Cuts) tt
    | inr e ↦ rw (e, Cuts) h
  ]

-- A nonce that is not in the bytes.
unfoldable pub Fresh : List ℕ → Text → Type 0
Fresh raw nonce = (is_empty nonce || not (contains_str nonce raw)) ≡ true

nonce_from-Fresh :
    (more : ℕ) (draw : ℕ → Text) (raw : List ℕ) (nonce : Text)
    → nonce_from more draw raw ≡ some nonce
    → Fresh raw nonce
unfolding nonce_from Fresh
nonce_from-Fresh zero draw raw nonce h = cc
nonce_from-Fresh (suc more) draw raw nonce h =
    ground (arith, nonce_from-Fresh more (λ i. draw (i + 1)) raw nonce)

-- What is said of a result.
abbrev pub Extracted : (List ℕ → Bool) → BlobPolicy → List ℕ → Extraction → Type 0
Extracted is_utf8 p raw x =
    (nonce : Text) × Fresh raw nonce
    × Cut is_utf8 p nonce 0 raw x.body x.blobs
    × (x.skipped_bytes ≡ content_bytes x.blobs)

unfoldable WhereExtracted : (List ℕ → Bool) → BlobPolicy → List ℕ → Option Extraction → Type 0
WhereExtracted is_utf8 p raw none = Unit
WhereExtracted is_utf8 p raw (some x) = Extracted is_utf8 p raw x

with-nonce :
    (is_utf8 : List ℕ → Bool) (p : BlobPolicy) (raw : List ℕ) (nonce : Text) (o : Option Extraction)
    → Fresh raw nonce
    → Cuts is_utf8 p nonce 0 raw o
    → WhereExtracted is_utf8 p raw o
unfolding WhereExtracted Cuts
with-nonce is_utf8 p raw nonce none f c = tt
with-nonce is_utf8 p raw nonce (some x) f (c, s) = (nonce, f, c, s)

where_extracted :
    (is_utf8 : List ℕ → Bool) (draw : ℕ → Text) (raw : List ℕ) (p : BlobPolicy)
    → WhereExtracted is_utf8 p raw (extract is_utf8 draw raw p)
unfolding extract WhereExtracted gen_nonce
where_extracted is_utf8 draw raw p =
    elim (Bool-cases (not p.enabled || is_off p.mode || is_empty raw)) [
      | inl off ↦ rw (off, WhereExtracted) tt
      | inr on ↦ elim (Bool-cases (not (is_utf8 raw))) [
        | inl bad ↦ rw (on, bad, WhereExtracted) tt
        | inr good ↦ elim (Option-cases (gen_nonce draw raw)) [
          | inl e ↦ rw (on, good, e, WhereExtracted) tt
          | inr (nonce, e) ↦
              rw (on, good, e)
                (with-nonce is_utf8 p raw nonce _ (nonce_from-Fresh 4 draw raw nonce e) (
                  Cuts-with_blobs is_utf8 p nonce 0 raw _
                    (Cuts-extract_from is_utf8 p nonce (length raw) 0 raw (omega arith))))
        ]
      ]
    ]

-- Where `extract` gives a body, it is what came in but for the payloads: with a nonce that the bytes
-- do not hold, the content of each string literal that was taken out, which the policy takes for a
-- payload and which no colon follows, so that it is no key, gives way to the token of the nonce and
-- of its index, in order, all else is copied, each other literal whole, and the bytes that are out
-- are counted.
pub extract-Cut :
    (is_utf8 : List ℕ → Bool) (draw : ℕ → Text) (raw : List ℕ) (p : BlobPolicy) (x : Extraction)
    → extract is_utf8 draw raw p ≡ some x
    → Extracted is_utf8 p raw x
unfolding WhereExtracted
extract-Cut is_utf8 draw raw p x h =
    subst (WhereExtracted is_utf8 p raw) h (where_extracted is_utf8 draw raw p)
