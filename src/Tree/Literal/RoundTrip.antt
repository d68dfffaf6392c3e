-- ===== src/Tree/Literal/RoundTrip.antt =====
-- src/mask/tree.rs: `read_json_string` of what `json_string_literal` writes.
pub mod Escapes
use maskit_rs.Base.{
  ℕ, zero, suc, ◌+◌, ◌*◌, ◌/◌, ◌%◌, ◌<◌, ◌≤◌, ◌≡◌, refl, sym, ap, ◌∙◌, inl, inr, Bool-cases, Bool,
  true, false, not, ◌&&◌, ◌||◌, some, Text, List, [], ◌∷◌, ◌++◌, append_assoc, append-nil, length,
  length-append, take, drop, all, ltb, ◌==◌, if◌then◌else◌, arith,
}
use maskit_rs.Base.Map.{text_eq_refl}
use maskit_rs.Str.{utf8}
use maskit_rs.Tree.Literal.{
  hex_digit, hex4, u_escape, unicode_escape, literal_char, json_string_literal, utf8_len, is_scalar,
  from_u32, sequence_value, from_utf8_one, hex_value, hex_digits, from_hex, u_char, unescape,
  or_empty, read_from, read_json_string,
}
use Escapes.{
  hex_value-hex_digit, hex_digit_plus, hex_digits_step, hex_digits-hex_digit, some_value,
  hex_digits-hex4, from_hex-hex4, u_char-hex4, sequence_value-utf8, from_utf8_one-of,
}

take-utf8_len : (a : ℕ) → take (utf8_len a) (a ∷ []) ≡ a ∷ []
unfolding utf8_len
take-utf8_len a = ground arith

drop-utf8_len : (a : ℕ) → drop (utf8_len a) (a ∷ []) ≡ []
unfolding utf8_len
drop-utf8_len a = ground arith

read_from-nil : (fuel : ℕ) → read_from fuel [] ≡ ([], [])
unfolding read_from
read_from-nil zero = refl
read_from-nil (suc fuel) = refl

-- A byte that neither ends the text nor escapes: a sequence is read.
read_from-sequence :
    (fuel a : ℕ) (xs : List ℕ)
    → (a == b'"') ≡ false
    → (a == b'\\') ≡ false
    → read_from (suc fuel) (a ∷ xs) ≡ (
      or_empty (from_utf8_one (take (utf8_len a) (a ∷ xs)))
          ++ (read_from fuel (drop (utf8_len a) (a ∷ xs))).0,
      (read_from fuel (drop (utf8_len a) (a ∷ xs))).1,
    )
unfolding read_from
read_from-sequence fuel a [] q e = rw q (
    rw (take-utf8_len a) (
      rw (drop-utf8_len a)
        (rw (read_from-nil fuel) (rw (append-nil (or_empty (from_utf8_one (a ∷ [])))) refl))))
read_from-sequence fuel a (x ∷ xs) q e = rw q (rw e refl)

small : (c : ℕ) → c < 0x10000 → ltb 0xFFFF c ≡ false
small c h = ground arith

module _ (fuel : ℕ) (rest : List ℕ) where
  abbrev Reads : ℕ → List ℕ → Type 0
  Reads c bytes =
      read_from (suc fuel) (bytes ++ rest) ≡ (c ∷ (read_from fuel rest).0, (read_from fuel rest).1)

  Reads-escape : (e : ℕ) → (e == b'u') ≡ false → Reads (unescape e) (b'\\' ∷ e ∷ [])
  unfolding read_from
  Reads-escape e h = rw h refl

  Reads-escaped : (c e : ℕ) → (e == b'u') ≡ false → c ≡ unescape e → Reads c (b'\\' ∷ e ∷ [])
  Reads-escaped c e h u = rw u (Reads-escape e h)

  Reads-u_escape : (n : ℕ) → n < 65536 → is_scalar n ≡ true → Reads n (u_escape n)
  unfolding read_from u_escape
  Reads-u_escape n h s = ground (arith, u_char-hex4 n h s)

  Reads-sequence :
      (c a : ℕ) (bs : List ℕ)
      → is_scalar c ≡ true
      → utf8 c ≡ a ∷ bs
      → (a == b'"') ≡ false
      → (a == b'\\') ≡ false
      → take (utf8_len a) (a ∷ bs ++ rest) ≡ a ∷ bs
      → drop (utf8_len a) (a ∷ bs ++ rest) ≡ rest
      → Reads c (a ∷ bs)
  Reads-sequence c a bs s u q e t d =
      read_from-sequence fuel a (bs ++ rest) q e
      ∙ rw t (rw d (rw (from_utf8_one-of c a bs s u) refl))

  Reads-utf8 :
      (c : ℕ) → is_scalar c ≡ true → (c == b'"') ≡ false → (c == b'\\') ≡ false → Reads c (utf8 c)
  unfolding utf8 utf8_len
  Reads-utf8 c s q e = elim (Bool-cases (ltb c 0x80)) [
    | inl h ↦ rw h (Reads-sequence c c [] s (rw h refl) q e (ground arith) (ground arith))
    | inr h ↦ elim (Bool-cases (ltb c 0x800)) [
      | inl h' ↦
          rw (h, h')
            (Reads-sequence c (192 + c / 64) ((128 + c % 64) ∷ []) s (rw (h, h') refl)
              (ground arith) (ground arith) (ground arith) (ground arith))
      | inr h' ↦ elim (Bool-cases (ltb c 0x10000)) [
        | inl h'' ↦
            rw (h, h', h'')
              (Reads-sequence c (224 + c / 4096) ((128 + c / 64 % 64) ∷ (128 + c % 64) ∷ []) s
                (rw (h, h', h'') refl) (ground arith) (ground arith) (ground arith) (ground arith))
        | inr h'' ↦
            rw (h, h', h'')
              (Reads-sequence c (240 + c / 262144)
                ((128 + c / 4096 % 64) ∷ (128 + c / 64 % 64) ∷ (128 + c % 64) ∷ []) s
                (rw (h, h', h'') refl) (ground arith) (ground arith) (ground arith) (ground arith))
      ]
    ]
  ]

  Reads-unicode_escape : (c : ℕ) → c < 0x10000 → is_scalar c ≡ true → Reads c (unicode_escape c)
  unfolding unicode_escape
  Reads-unicode_escape c h s = rw (small c h) (Reads-u_escape c h s)

  Reads-other :
      (ascii_esc : Bool) (c : ℕ)
      → is_scalar c ≡ true
      → (not ascii_esc || ltb c 0x10000) ≡ true
      → (c == b'"') ≡ false
      → (c == b'\\') ≡ false
      → Reads c (
          if ltb c 0x20
          then u_escape c
          else if ascii_esc && ltb 0x7F c
          then unicode_escape c
          else utf8 c)
  Reads-other ascii_esc c s b q e = elim (Bool-cases (ltb c 0x20)) [
    | inl h ↦ rw h (Reads-u_escape c (ground arith) s)
    | inr h ↦ elim (Bool-cases (ascii_esc && ltb 0x7F c)) [
      | inl h' ↦ rw (h, h') (Reads-unicode_escape c (ground arith) s)
      | inr h' ↦ rw (h, h') (Reads-utf8 c s q e)
    ]
  ]

  Reads-literal_char :
      (ascii_esc : Bool) (c : ℕ)
      → is_scalar c ≡ true
      → (not ascii_esc || ltb c 0x10000) ≡ true
      → Reads c (literal_char ascii_esc c)
  unfolding literal_char unescape
  Reads-literal_char ascii_esc c s b = elim (Bool-cases (c == b'"')) [
    | inl h ↦ rw h (Reads-escaped c b'"' refl (ground arith))
    | inr h1 ↦ elim (Bool-cases (c == b'\\')) [
      | inl h ↦ rw (h1, h) (Reads-escaped c b'\\' refl (ground arith))
      | inr h2 ↦ elim (Bool-cases (c == 0xA)) [
        | inl h ↦ rw (h1, h2, h) (Reads-escaped c b'n' refl (ground arith))
        | inr h3 ↦ elim (Bool-cases (c == 0xD)) [
          | inl h ↦ rw (h1, h2, h3, h) (Reads-escaped c b'r' refl (ground arith))
          | inr h4 ↦ elim (Bool-cases (c == 0x9)) [
            | inl h ↦ rw (h1, h2, h3, h4, h) (Reads-escaped c b't' refl (ground arith))
            | inr h5 ↦ rw (h1, h2, h3, h4, h5) (Reads-other ascii_esc c s b h1 h2)
          ]
        ]
      ]
    ]
  ]

-- The texts that the writer takes: code points of characters, and with `ascii_esc` none outside the
-- basic plane, whose pair of surrogates the reader does not join.
abbrev pub Readable : Bool → Text → Type 0
Readable ascii_esc s = all (λ c. is_scalar c && (not ascii_esc || ltb c 0x10000)) s ≡ true

read_from-quote : (fuel : ℕ) (rest : List ℕ) → read_from (suc fuel) (b'"' ∷ rest) ≡ ([], rest)
unfolding read_from
read_from-quote fuel [] = refl
read_from-quote fuel (x ∷ rest) = refl

read_from-literal :
    (ascii_esc : Bool) (s : Text) (rest : List ℕ) (fuel : ℕ)
    → Readable ascii_esc s
    → length s < fuel
    → read_from fuel (json_string_literal s ascii_esc ++ b'"' ∷ rest) ≡ (s, rest)
unfolding json_string_literal
read_from-literal ascii_esc [] rest zero h l = absurd (omega arith)
read_from-literal ascii_esc [] rest (suc fuel) h l = read_from-quote fuel rest
read_from-literal ascii_esc (c ∷ s) rest zero h l = absurd (omega arith)
read_from-literal ascii_esc (c ∷ s) rest (suc fuel) h l =
    rw (append_assoc (literal_char ascii_esc c) (json_string_literal s ascii_esc) (b'"' ∷ rest)) (
      Reads-literal_char fuel (json_string_literal s ascii_esc ++ b'"' ∷ rest) ascii_esc c
        (ground arith) (ground arith)
      ∙ rw (read_from-literal ascii_esc s rest fuel (ground arith) (omega arith)) refl)

literal_char-length : (ascii_esc : Bool) (c : ℕ) → 0 < length (literal_char ascii_esc c)
unfolding literal_char utf8 unicode_escape u_escape
literal_char-length ascii_esc c = ground arith

literal_length : (ascii_esc : Bool) (s : Text) → length s ≤ length (json_string_literal s ascii_esc)
unfolding json_string_literal
literal_length ascii_esc [] = omega arith
literal_length ascii_esc (c ∷ s) = omega (
  arith,
  literal_char-length ascii_esc c,
  literal_length ascii_esc s,
  length-append (literal_char ascii_esc c) (json_string_literal s ascii_esc),
)

-- A written string is read back: behind the opening quote, the bytes that `json_string_literal`
-- writes for a text of characters and a closing quote give the text and what follows the quote.
-- With ASCII escapes the characters are those of the basic plane.
pub read_json_string-json_string_literal :
    (ascii_esc : Bool) (s : Text) (rest : List ℕ)
    → Readable ascii_esc s
    → read_json_string (json_string_literal s ascii_esc ++ b'"' ∷ rest) ≡ (s, rest)
unfolding read_json_string
read_json_string-json_string_literal ascii_esc s rest h =
    read_from-literal ascii_esc s rest (length (json_string_literal s ascii_esc ++ b'"' ∷ rest)) h (
      omega (
        arith,
        literal_length ascii_esc s,
        length-append (json_string_literal s ascii_esc) (b'"' ∷ rest),
      ))
