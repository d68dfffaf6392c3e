-- ===== src/Validators/Iban.antt =====
-- src/mask/validators.rs, `iban_ok`: bank account numbers. An `unwrap` of nothing gives `none`.
pub mod Numeral
use maskit_rs.Base.{
  ℕ, zero, suc, ◌+◌, ◌-◌, ◌*◌, ◌%◌, Bool, true, false, not, ◌&&◌, ◌||◌, Option, none, some, List,
  [], ◌∷◌, ◌++◌, Text, ltb, ◌==◌, within, if◌then◌else◌, length, all, ◌>>=◌,
}
use maskit_rs.Str.{
  is_ascii_uppercase, is_ascii_digit, is_ascii_alphanumeric, trim, byte_len, to_digit, show_nat,
}

-- The digits that one character stands for.
unfoldable pub piece : ℕ → Text
piece c = if is_ascii_uppercase c then show_nat (c - b'A' + 10) else c ∷ []

-- `for d in piece.chars() { rem = (rem * 10 + d) % 97; }`
unfoldable pub iban_digits : Text → ℕ → Option ℕ
unfolding to_digit
iban_digits [] rem = some rem
iban_digits (d ∷ ds) rem = elim (to_digit d) [
  | none ↦ none
  | some v ↦ iban_digits ds ((rem * 10 + v) % 97)
]

unfoldable pub iban_rem : Text → ℕ → Option ℕ
iban_rem [] rem = some rem
iban_rem (c ∷ cs) rem = elim (iban_digits (piece c) rem) [
  | none ↦ none
  | some rem' ↦ iban_rem cs rem'
]

-- Two upper case letters, two digits, then eleven to thirty-two letters and digits.
unfoldable pub iban_ok : Text → Option Bool
iban_ok iban = elim (trim iban) [
  | c0 ∷ c1 ∷ c2 ∷ c3 ∷ tail ↦
      let s = c0 ∷ c1 ∷ c2 ∷ c3 ∷ tail in
      if ltb (byte_len s) 15
      then some false
      else if not (is_ascii_uppercase c0) || not (is_ascii_uppercase c1)
      then some false
      else if not (is_ascii_digit c2) || not (is_ascii_digit c3)
      then some false
      else if not (within 15 36 (length s))
      then some false
      else if not (all is_ascii_alphanumeric tail)
      then some false
      else (do rem ← iban_rem (tail ++ c0 ∷ c1 ∷ c2 ∷ c3 ∷ []) 0; some (rem == 1))
  | _ ↦ some false
]
