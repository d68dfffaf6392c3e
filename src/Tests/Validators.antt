-- ===== src/Tests/Validators.antt =====
-- The validators: runs taken from the repository's tests, and the theorems at concrete inputs.
use maskit_rs.Str.{to_ascii_uppercase}
use maskit_rs.Validators.IdCard.{digit_or_zero}
use maskit_rs.Validators.IdCard.{check_char}
use maskit_rs.Validators.IdCard.{max_day}
use maskit_rs.Validators.IdCard.{number_or_zero}
use maskit_rs.Validators.IdCard.{is_real_date}
use maskit_rs.Validators.IdCard.{provinces}
use maskit_rs.Validators.IdCard.{is_valid_province}
use maskit_rs.Str.{slice}
use maskit_rs.Validators.IdCard.{idcard18_body}
use maskit_rs.Str.{split_at}
use maskit_rs.Str.{show_nat}
use maskit_rs.Validators.Iban.{piece}
use maskit_rs.Validators.Iban.{iban_digits}
use maskit_rs.Validators.Iban.{iban_rem}
use maskit_rs.Validators.Ip.{version_like}
use maskit_rs.Str.{parse_unsigned}
use maskit_rs.Validators.Ip.{ipv4_part}
use maskit_rs.Str.{split}
use maskit_rs.Validators.Ip.{four_parts}
use maskit_rs.Validators.Ip.{known_public_dns}
use maskit_rs.Validators.Uscc.{idx}
use maskit_rs.Str.{to_ascii_lowercase}
use maskit_rs.Base.Map.{text_eq}
use maskit_rs.Validators.Email.{email_file_exts}
use maskit_rs.Str.{contains_str}
use maskit_rs.Str.{ends_with}
use maskit_rs.Str.{starts_with}
use maskit_rs.Str.{byte_len}
use maskit_rs.Base.{ℕ, some, none, any, ◌%◌, ◌==◌, ◌≡◌, refl, true, false, ◌∷◌, ◌++◌, codes, arith}
use maskit_rs.Str.{trim}
use maskit_rs.Tests.Inputs.{casing}
use maskit_rs.Base.{[]}
use maskit_rs.Validators.Uscc.{idx}
use maskit_rs.Validators.Uscc.Check.{uscc_ok-substitute}
use maskit_rs.Validators.Phone.{phone_ok, landline_ok}
use maskit_rs.Validators.Email.{email_ok}
use maskit_rs.Validators.Uscc.{uscc_ok}
use maskit_rs.Validators.Iban.{iban_ok}
use maskit_rs.Validators.Iban.Numeral.{iban_ok-number, iban_number, iban_char}
use maskit_rs.Validators.IdCard.{idcard18_ok_at}
use maskit_rs.Validators.IdCard.Check.{idcard18_ok_at-substitute}
use maskit_rs.Validators.Ip.{ip_public_ok, ipv4_parts, is_private}
use maskit_rs.Validators.Ip.Blocks.{
  ip_public_ok-reserved, is_private_lem, in_block, address, reserved,
}
use maskit_rs.Validators.Luhn.{luhn_ok, card_ok}
use maskit_rs.Validators.Luhn.Errors.{luhn_ok-substitute, luhn_ok-exchange}

run_luhn :
    (luhn_ok (codes "4111111111111111") ≡ true)
    × (luhn_ok (codes "4111111111111112") ≡ false)
    × (card_ok (codes "4111 1111 1111 1111") ≡ true)
unfolding luhn_ok card_ok
run_luhn = (refl, refl, refl)

card_accepted : luhn_ok (codes "4111-1111-" ++ b'1' ∷ codes "111-1111") ≡ true
unfolding luhn_ok
card_accepted = refl

luhn_ok-substitute_example : luhn_ok (codes "4111-1111-" ++ b'7' ∷ codes "111-1111") ≡ false
luhn_ok-substitute_example =
    luhn_ok-substitute (codes "4111-1111-") (codes "111-1111") b'1' b'7' refl refl (omega arith)
      card_accepted

exchange_accepted : luhn_ok (codes "" ++ b'4' ∷ b'1' ∷ codes "11111111111111") ≡ true
unfolding luhn_ok
exchange_accepted = refl

luhn_ok-exchange_example : luhn_ok (codes "" ++ b'1' ∷ b'4' ∷ codes "11111111111111") ≡ false
luhn_ok-exchange_example =
    luhn_ok-exchange (codes "") (codes "11111111111111") b'4' b'1' refl refl (omega arith)
      (omega arith) exchange_accepted

run_validators :
    (phone_ok (codes "+86 138-0013-8000") ≡ true)
    × (phone_ok (codes "11111111111") ≡ false)
    × (landline_ok (codes "010-88886666") ≡ true)
    × (email_ok (codes "user@app.10.0.0.1.nip.io") ≡ true)
    × (email_ok (codes "lodash@4.17.21.tgz") ≡ false)
    × (uscc_ok (codes "91350100M000100Y43") ≡ true)
    × (ip_public_ok (codes "8.8.8.8") ≡ false)
unfolding phone_ok byte_len starts_with landline_ok email_ok trim ends_with contains_str
    email_file_exts text_eq to_ascii_lowercase uscc_ok idx ip_public_ok known_public_dns
run_validators = (refl, refl, refl, refl, refl, refl, refl)

public_accepted : ip_public_ok (codes "93.184.216.34") ≡ true
unfolding ip_public_ok known_public_dns text_eq ipv4_parts four_parts split ipv4_part byte_len
    parse_unsigned version_like is_private
public_accepted = refl

ip_public_ok-reserved_example :
    (a : ℕ) × (b : ℕ) × (c : ℕ) × (d : ℕ) × (ipv4_parts (codes "93.184.216.34") ≡ some (a, b, c, d))
    × (any (in_block (address a b c d)) reserved ≡ false)
ip_public_ok-reserved_example = ip_public_ok-reserved (codes "93.184.216.34") public_accepted

is_private_lem_example : is_private 172 20 3 ≡ any (in_block (address 172 20 3 4)) reserved
is_private_lem_example = is_private_lem (omega arith) (omega arith) (omega arith) (omega arith)

iban_ok-number_example :
    iban_ok (codes "DE89370400440532013000")
    ≡ some (iban_number 0 (codes "370400440532013000DE89") % 97 == 1)
unfolding trim iban_char
iban_ok-number_example =
    iban_ok-number (codes "DE89370400440532013000") b'D' b'E' b'8' b'9' (codes "370400440532013000")
      refl refl refl refl refl

run_iban :
    (iban_ok (codes "DE89370400440532013000") ≡ some true)
    × (iban_ok (codes "DE893704004405320130a0") ≡ none)
unfolding iban_ok trim byte_len iban_rem iban_digits piece show_nat
run_iban = (refl, refl)

card_body_accepted :
    idcard18_ok_at casing ((codes "1101051949" ++ b'1' ∷ codes "231002") ++ codes "X") 2026
    ≡ some true
unfolding idcard18_ok_at byte_len split_at idcard18_body slice is_valid_province provinces text_eq
    is_real_date number_or_zero parse_unsigned max_day starts_with check_char digit_or_zero
    to_ascii_uppercase
card_body_accepted = refl

idcard18_ok_at-substitute_example : ¬ (
    idcard18_ok_at casing ((codes "1101051949" ++ b'0' ∷ codes "231002") ++ codes "X") 2026
    ≡ some true)
idcard18_ok_at-substitute_example =
    idcard18_ok_at-substitute casing (codes "1101051949") (codes "231002") (codes "X") b'1' b'0'
      2026 refl refl refl refl refl (λ e. omega arith) card_body_accepted

code_accepted : uscc_ok ((codes "9135010" ++ b'0' ∷ codes "M000100Y4") ++ b'3' ∷ []) ≡ true
unfolding uscc_ok byte_len idx
code_accepted = refl

uscc_ok-substitute_example :
    ¬ (uscc_ok ((codes "9135010" ++ b'1' ∷ codes "M000100Y4") ++ b'3' ∷ []) ≡ true)
unfolding idx
uscc_ok-substitute_example =
    uscc_ok-substitute (codes "9135010") (codes "M000100Y4") b'0' b'1' b'3' 0 1 refl refl refl refl
      refl (λ e. omega arith) code_accepted
