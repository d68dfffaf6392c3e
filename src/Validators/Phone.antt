-- ===== src/Validators/Phone.antt =====
-- src/mask/validators.rs, `phone_ok` and `landline_ok`: telephone numbers.
use maskit_rs.Base.{
  ℕ, Bool, true, false, not, ◌&&◌, ◌||◌, Option, none, some, Text, codes, leb, ◌==◌, within,
  if◌then◌else◌, all, drop, filter, get_or,
}
use maskit_rs.Str.{is_ascii_digit, byte_len, starts_with, strip_prefix}

-- Without the country code, where the length says that it is one.
unfoldable pub phone_core : Text → Text
phone_core digits =
    if starts_with (codes "86") digits && byte_len digits == 13
    then drop 2 digits
    else if starts_with (codes "0086") digits && byte_len digits == 15
    then drop 4 digits
    else digits

-- 11 digits, of which the first is 1 and the second 3 to 9, not all the same.
unfoldable pub core_ok : Text → Bool
core_ok b =
    if not (byte_len b == 11)
    then false
    else if not (get_or b 0 0 == b'1') || not (within b'3' b'9' (get_or b 1 0))
    then false
    else if all (λ c. c == get_or b 0 0) b
    then false
    else true

unfoldable pub phone_ok : Text → Bool
unfolding phone_core core_ok
phone_ok num_str = core_ok (phone_core (filter is_ascii_digit num_str))

unfoldable pub landline_core : Text → Text
landline_core digits = elim (strip_prefix (codes "0086") digits) [
  | some d ↦ d
  | none ↦ elim (strip_prefix (codes "86") digits) [ some d ↦ d | none ↦ digits ]
]

-- The first digit of the local number, behind an area code of three or four digits.
unfoldable pub local_first : Text → Option ℕ
local_first b =
    if leb 4 (byte_len b) && (get_or b 1 0 == b'1' || get_or b 1 0 == b'2')
    then some (get_or b 3 0)
    else if leb 5 (byte_len b) && within b'3' b'9' (get_or b 1 0)
    then some (get_or b 4 0)
    else none

unfoldable pub landline_ok : Text → Bool
unfolding landline_core local_first
landline_ok num_str =
    let digits = landline_core (filter is_ascii_digit num_str) in
    if not (within 10 17 (byte_len digits))
    then false
    else if not (starts_with (codes "0") digits)
    then false
    else elim (local_first digits) [ none ↦ false | some c ↦ within b'2' b'9' c ]
