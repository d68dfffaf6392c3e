-- ===== src/Tree/Body/Escaped.antt =====
-- src/mask/tree.rs, `serialize_compact`: the escapes of characters outside ASCII.
use maskit_rs.Base.{
  ℕ, ◌+◌, ◌-◌, ◌*◌, ◌/◌, ◌%◌, ◌≤◌, ◌<◌, ◌≡◌, ◌⊎◌, refl, sym, ap, ◌∙◌, inl, inr, Bool-cases, true,
  Option, some, Text, [], ◌∷◌, ◌++◌, append_assoc, all, ltb, arith,
}
use maskit_rs.Json.{Value}
use maskit_rs.Tree.Literal.{hex_digit, hex4, u_escape, unicode_escape, escape_non_ascii, is_scalar}

-- A hexadecimal digit, in lower case.
Digit : ℕ → ℕ → Type 0
Digit d c = ((d < 10) × (c ≡ 0x30 + d)) ⊎ ((10 ≤ d) × (d < 16) × (c ≡ 0x61 + (d - 10)))

-- The escape of a number by its four digits.
pub Unit16 : ℕ → Text → Type 0
Unit16 n t =
    (a b c d : ℕ) × (w x y z : ℕ) × (n ≡ a * 4096 + b * 256 + c * 16 + d)
    × Digit a w
    × Digit b x
    × Digit c y
    × Digit d z
    × (t ≡ 0x5C ∷ 0x75 ∷ w ∷ x ∷ y ∷ z ∷ [])

-- The escapes of RFC 8259 for a character: one unit of UTF-16, or a pair of surrogates.
pub data Escapes : ℕ → Text → Type 0 where
  one : {c : ℕ} {t : Text} → c < 0x10000 → Unit16 c t → Escapes c t
  pair :
      {c : ℕ} (t t' : Text) (high low : ℕ)
      → high < 1024
      → low < 1024
      → c ≡ 0x10000 + (high * 1024 + low)
      → Unit16 (0xD800 + high) t
      → Unit16 (0xDC00 + low) t'
      → Escapes c (t ++ t')

hex_digit-Digit : (d : ℕ) → d < 16 → Digit d (hex_digit d)
unfolding hex_digit Digit
hex_digit-Digit d h = elim (Bool-cases (ltb d 10)) [
  | inl e ↦ rw e (inl (ground arith, refl))
  | inr e ↦ rw e (inr (ground arith, h, refl))
]

u_escape-Unit16 : (n : ℕ) → n < 0x10000 → Unit16 n (u_escape n)
unfolding u_escape hex4 Unit16
u_escape-Unit16 n h = (
  n / 4096 % 16,
  n / 256 % 16,
  n / 16 % 16,
  n % 16,
  _,
  _,
  _,
  _,
  omega arith,
  hex_digit-Digit _ (omega arith),
  hex_digit-Digit _ (omega arith),
  hex_digit-Digit _ (omega arith),
  hex_digit-Digit _ (omega arith),
  refl,
)

unicode_escape-Escapes : (c : ℕ) → is_scalar c ≡ true → Escapes c (unicode_escape c)
unfolding unicode_escape
unicode_escape-Escapes c h = elim (Bool-cases (ltb 0xFFFF c)) [
  | inr e ↦ rw e (one (ground arith) (u_escape-Unit16 c (ground arith)))
  | inl e ↦ rw e (
      pair _ _ ((c - 0x10000) / 1024) ((c - 0x10000) % 1024) (ground arith) (ground arith)
        (ground arith) (u_escape-Unit16 _ (ground arith)) (u_escape-Unit16 _ (ground arith)))
]

-- A parser reads a text as before where a character outside ASCII gives way to its escapes: in JSON
-- such a character stands only within a string, and not behind a backslash.
abbrev pub ReadsEscapes : (Text → Option Value) → Type 0
ReadsEscapes from_str =
    (front rest t : Text) (c : ℕ) (v : Value)
    → 0x7F < c
    → is_scalar c ≡ true
    → Escapes c t
    → from_str (front ++ c ∷ rest) ≡ some v
    → from_str (front ++ (t ++ rest)) ≡ some v

module _ (from_str : Text → Option Value) (law : ReadsEscapes from_str) (v : Value) where
  escaped_behind :
      (front s : Text)
      → all is_scalar s ≡ true
      → from_str (front ++ s) ≡ some v
      → from_str (front ++ escape_non_ascii s) ≡ some v
  unfolding escape_non_ascii
  escaped_behind front [] h e = e
  escaped_behind front (c ∷ s) h e = elim (Bool-cases (ltb 0x7F c)) [
    | inl wide ↦ rw wide (
        ap from_str (sym (append_assoc front (unicode_escape c) (escape_non_ascii s)))
        ∙ escaped_behind (front ++ unicode_escape c) s (ground arith) (
            ap from_str (append_assoc front (unicode_escape c) s)
            ∙ law front s (unicode_escape c) c v (ground arith) (ground arith)
                (unicode_escape-Escapes c (ground arith)) e))
    | inr ascii ↦ rw ascii (
        ap from_str (sym (append_assoc front (c ∷ []) (escape_non_ascii s)))
        ∙ escaped_behind (front ++ c ∷ []) s (ground arith)
            (ap from_str (append_assoc front (c ∷ []) s) ∙ e))
  ]

  -- Where a text is read, it is read alike with its characters outside ASCII escaped.
  pub from_str-escape_non_ascii :
      (s : Text)
      → all is_scalar s ≡ true
      → from_str s ≡ some v
      → from_str (escape_non_ascii s) ≡ some v
  from_str-escape_non_ascii s h e = escaped_behind [] s h e
