-- ===== src/Engine/Embedded.antt =====
-- src/mask/engine.rs, `apply_escape`: how a value stands within a JSON string.
use maskit_rs.Base.{
  ℕ, ◌+◌, ◌-◌, ◌/◌, ◌%◌, ◌≡◌, refl, inl, inr, Bool-cases, Bool, true, false, Option, none, some,
  Text, List, [], ◌∷◌, ◌++◌, codes, ltb, ◌==◌, if◌then◌else◌, arith,
}
use maskit_rs.Tree.Literal.{hex4, hex_digit, u_escape}
use maskit_rs.Engine.Escape.{escape_char, json_escape_str, apply_escape}

-- The characters with a short form, and the character that stands for them behind a backslash.
abbrev pub short_forms : List (ℕ × ℕ)
short_forms = (0x22, b'"') ∷ (0x5C, b'\\') ∷ (0x0A, b'n') ∷ (0x0D, b'r') ∷ (0x09, b't') ∷ []

abbrev pub form_of : List (ℕ × ℕ) → ℕ → Option ℕ
form_of [] c = none
form_of ((d, f) ∷ forms) c = if c == d then some f else form_of forms c

abbrev pub hex : ℕ → ℕ
hex d = if ltb d 10 then b'0' + d else b'a' + (d - 10)

abbrev pub written : Option ℕ → ℕ → Text
written (some f) c = b'\\' ∷ f ∷ []
written none c = if ltb c 0x20 then codes "\\u00" ++ (hex (c / 16) ∷ hex (c % 16) ∷ []) else c ∷ []

abbrev pub embedded_char : ℕ → Text
embedded_char c = written (form_of short_forms c) c

-- A value as the text of a JSON string, or as it is.
abbrev pub embedded : Bool → Text → Text
embedded false s = s
embedded true [] = []
embedded true (c ∷ s) = embedded_char c ++ embedded true s

escape_char_lem : (c : ℕ) → escape_char c ≡ embedded_char c
unfolding escape_char u_escape hex4 hex_digit
escape_char_lem c = elim (Bool-cases (c == b'"')) [
  | inl a ↦ rw a refl
  | inr a ↦ elim (Bool-cases (c == b'\\')) [
    | inl b ↦ rw (a, b) refl
    | inr b ↦ elim (Bool-cases (c == 0xA)) [
      | inl n ↦ rw (a, b, n) refl
      | inr n ↦ elim (Bool-cases (c == 0xD)) [
        | inl r ↦ rw (a, b, n, r) refl
        | inr r ↦ elim (Bool-cases (c == 0x9)) [
          | inl t ↦ rw (a, b, n, r, t) refl
          | inr t ↦ elim (Bool-cases (ltb c 0x20)) [
            | inl low ↦ rw (a, b, n, r, t, low) (ground arith)
            | inr high ↦ rw (a, b, n, r, t, high) refl
          ]
        ]
      ]
    ]
  ]
]

json_escape_str_lem : (s : Text) → json_escape_str s ≡ embedded true s
unfolding json_escape_str
json_escape_str_lem [] = refl
json_escape_str_lem (c ∷ s) = rw (escape_char_lem c, json_escape_str_lem s) refl

pub apply_escape_lem : (s : Text) (escape : Bool) → apply_escape s escape ≡ embedded escape s
unfolding apply_escape
apply_escape_lem s true = json_escape_str_lem s
apply_escape_lem s false = refl
