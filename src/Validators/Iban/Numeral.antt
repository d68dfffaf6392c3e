-- ===== src/Validators/Iban/Numeral.antt =====
-- src/mask/validators.rs, `iban_ok`: the number that an account number writes.
use maskit_rs.Base.{
  length, ◌++◌, ℕ, zero, suc, ◌+◌, ◌-◌, ◌*◌, ◌/◌, ◌%◌, ◌≡◌, refl, Bool, true, ◌&&◌, ◌||◌, some, [],
  ◌∷◌, Text, leb, within, ◌==◌, if◌then◌else◌, all, arith, Bool-cases, inl, inr,
}
use maskit_rs.Str.{
  trim, is_ascii, is_ascii_alphanumeric, is_ascii_uppercase, is_ascii_digit, to_digit, show_nat,
  show_from,
}
use maskit_rs.Str.Laws.{byte_len_ascii}
use maskit_rs.Validators.Iban.{iban_ok, piece, iban_digits, iban_rem}

-- The number that a text writes behind `n`: a letter stands for two digits, from 10 for A to 35 for Z.
unfoldable pub iban_number : ℕ → Text → ℕ
iban_number n [] = n
iban_number n (c ∷ cs) =
    if is_ascii_digit c
    then iban_number (n * 10 + (c - b'0')) cs
    else iban_number (n * 100 + (c - b'A' + 10)) cs

digit_step :
    (c n : ℕ)
    → is_ascii_digit c ≡ true
    → iban_digits (piece c) (n % 97) ≡ some ((n * 10 + (c - b'0')) % 97)
unfolding iban_digits piece to_digit
digit_step c n h = ground arith

show_two :
    (k n : ℕ)
    → leb 10 n && leb n 99 ≡ true
    → show_from (suc (suc k)) n [] ≡ (b'0' + n / 10) ∷ (b'0' + n % 10) ∷ []
unfolding show_from
show_two k n h = ground arith

show_letter :
    (m : ℕ) → leb 10 m && leb m 99 ≡ true → show_nat m ≡ (b'0' + m / 10) ∷ (b'0' + m % 10) ∷ []
unfolding show_nat
show_letter zero h = cc
show_letter (suc zero) h = cc
show_letter (suc (suc k)) h = show_two k (suc (suc k)) h

letter_step :
    (c n : ℕ)
    → is_ascii_uppercase c ≡ true
    → iban_digits (piece c) (n % 97) ≡ some ((n * 100 + (c - b'A' + 10)) % 97)
unfolding iban_digits piece to_digit
letter_step c n h = ground (arith, show_letter (c - b'A' + 10))

pub iban_rem-number :
    (s : Text) (n : ℕ)
    → all (λ c. is_ascii_uppercase c || is_ascii_digit c) s ≡ true
    → iban_rem s (n % 97) ≡ some (iban_number n s % 97)
unfolding iban_rem iban_number
iban_rem-number [] n h = refl
iban_rem-number (c ∷ cs) n h = elim (Bool-cases (is_ascii_digit c)) [
  | inl e ↦ ground (arith, digit_step c n, iban_rem-number cs (n * 10 + (c - b'0')))
  | inr e ↦ ground (arith, letter_step c n, iban_rem-number cs (n * 100 + (c - b'A' + 10)))
]

-- An upper case letter or a digit.
unfoldable pub iban_char : ℕ → Bool
iban_char c = is_ascii_uppercase c || is_ascii_digit c

char_alphanumeric : (s : Text) → all iban_char s ≡ true → all is_ascii_alphanumeric s ≡ true
unfolding iban_char
char_alphanumeric [] h = refl
char_alphanumeric (c ∷ s) h = ground (arith, char_alphanumeric s)

char_ascii : (s : Text) → all iban_char s ≡ true → all is_ascii s ≡ true
unfolding iban_char
char_ascii [] h = refl
char_ascii (c ∷ s) h = ground (arith, char_ascii s)

char-append :
    (s t : Text) → all iban_char s ≡ true → all iban_char t ≡ true → all iban_char (s ++ t) ≡ true
char-append [] t hs ht = ht
char-append (c ∷ s) t hs ht = ground (arith, char-append s t)

chars-rem : (s : Text) → all iban_char s ≡ true → iban_rem s 0 ≡ some (iban_number 0 s % 97)
unfolding iban_char
chars-rem s h = iban_rem-number s 0 h

-- A number of the right form is accepted exactly when the number that its rearrangement writes leaves
-- the remainder 1.
pub iban_ok-number :
    (iban : Text) (c0 c1 c2 c3 : ℕ) (tail : Text)
    → trim iban ≡ c0 ∷ c1 ∷ c2 ∷ c3 ∷ tail
    → is_ascii_uppercase c0 && is_ascii_uppercase c1 ≡ true
    → is_ascii_digit c2 && is_ascii_digit c3 ≡ true
    → all iban_char tail ≡ true
    → within 11 32 (length tail) ≡ true
    → iban_ok iban ≡ some (iban_number 0 (tail ++ c0 ∷ c1 ∷ c2 ∷ c3 ∷ []) % 97 == 1)
unfolding iban_ok iban_char
iban_ok-number iban c0 c1 c2 c3 tail form upper digit chars long =
    rw (form, iban_ok)
      (ground (
        arith,
        byte_len_ascii (c0 ∷ c1 ∷ c2 ∷ c3 ∷ tail) (ground (arith, char_ascii tail)),
        char_alphanumeric tail,
        chars-rem (tail ++ c0 ∷ c1 ∷ c2 ∷ c3 ∷ [])
            (char-append tail (c0 ∷ c1 ∷ c2 ∷ c3 ∷ []) chars (ground arith)),
      ))
