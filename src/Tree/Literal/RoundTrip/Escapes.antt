-- ===== src/Tree/Literal/RoundTrip/Escapes.antt =====
-- src/mask/tree.rs: hexadecimal escapes and the bytes of one character, read back.
use maskit_rs.Base.{
  ℕ, ◌+◌, ◌*◌, ◌/◌, ◌%◌, ◌<◌, ◌≡◌, refl, sym, ap, ◌∙◌, inl, inr, Bool-cases, true, false, some,
  List, [], ◌∷◌, ltb, ◌==◌, arith,
}
use maskit_rs.Base.Map.{text_eq_refl}
use maskit_rs.Str.{utf8}
use maskit_rs.Tree.Literal.{
  hex_digit, hex4, is_scalar, from_u32, sequence_value, from_utf8_one, hex_value, hex_digits,
  from_hex, u_char,
}

pub hex_value-hex_digit : (d : ℕ) → d < 16 → hex_value (hex_digit d) ≡ some d
unfolding hex_value hex_digit
hex_value-hex_digit d h = ground arith

pub hex_digit_plus : (d : ℕ) → d < 16 → (hex_digit d == b'+') ≡ false
unfolding hex_digit
hex_digit_plus d h = ground arith

pub hex_digits_step :
    (n c d : ℕ) (s : List ℕ)
    → hex_value c ≡ some d
    → hex_digits n (c ∷ s) ≡ hex_digits (n * 16 + d) s
unfolding hex_digits
hex_digits_step n c d s h = rw (h, hex_digits) refl

pub hex_digits-hex_digit :
    (n d : ℕ) (s : List ℕ) → d < 16 → hex_digits n (hex_digit d ∷ s) ≡ hex_digits (n * 16 + d) s
hex_digits-hex_digit n d s h = hex_digits_step n (hex_digit d) d s (hex_value-hex_digit d h)

pub some_value :
    (n : ℕ)
    → n < 65536
    → hex_digits
        ((((0 * 16 + n / 4096 % 16) * 16 + n / 256 % 16) * 16 + n / 16 % 16) * 16 + n % 16)
        []
      ≡ some n
unfolding hex_digits
some_value n h = ap some (omega arith)

pub hex_digits-hex4 : (n : ℕ) → n < 65536 → hex_digits 0 (hex4 n) ≡ some n
unfolding hex4
hex_digits-hex4 n h =
    hex_digits-hex_digit 0 (n / 4096 % 16) _ (omega arith)
    ∙ (hex_digits-hex_digit _ (n / 256 % 16) _ (omega arith)
        ∙ (hex_digits-hex_digit _ (n / 16 % 16) _ (omega arith)
            ∙ (hex_digits-hex_digit _ (n % 16) [] (omega arith) ∙ some_value n h)))

pub from_hex-hex4 : (n : ℕ) → n < 65536 → from_hex (hex4 n) ≡ some n
unfolding from_hex hex4
from_hex-hex4 n h = rw (hex_digit_plus (n / 4096 % 16) (omega arith)) (hex_digits-hex4 n h)

pub u_char-hex4 : (n : ℕ) → n < 65536 → is_scalar n ≡ true → u_char (hex4 n) ≡ n ∷ []
unfolding u_char from_u32
u_char-hex4 n h s = rw (from_hex-hex4 n h) (ground arith)

-- The code point that each form of bytes holds.
pub sequence_value-utf8 : (c : ℕ) → is_scalar c ≡ true → sequence_value (utf8 c) ≡ c
unfolding sequence_value utf8
sequence_value-utf8 c s = elim (Bool-cases (ltb c 0x80)) [
  | inl e ↦ rw e refl
  | inr e ↦ elim (Bool-cases (ltb c 0x800)) [
    | inl e' ↦ rw (e, e') (ground arith)
    | inr e' ↦ elim (Bool-cases (ltb c 0x10000)) [
      | inl e'' ↦ rw (e, e', e'') (ground arith)
      | inr e'' ↦ rw (e, e', e'') (ground arith)
    ]
  ]
]

pub from_utf8_one-of :
    (c a : ℕ) (bs : List ℕ)
    → is_scalar c ≡ true
    → utf8 c ≡ a ∷ bs
    → from_utf8_one (a ∷ bs) ≡ some (c ∷ [])
unfolding from_utf8_one
from_utf8_one-of c a bs s e =
    let v : sequence_value (a ∷ bs) ≡ c = ap sequence_value (sym e) ∙ sequence_value-utf8 c s in
    rw v (rw e (rw (text_eq_refl (a ∷ bs)) (rw s refl)))
