-- ===== src/Validators/Luhn.antt =====
-- src/mask/validators.rs, `luhn_ok` and `card_ok`: bank cards.
pub mod Errors
use mathlib.Core.List.{reverse}
use maskit_rs.Base.{
  ℕ, ◌+◌, ◌-◌, ◌*◌, ◌%◌, Bool, true, false, not, ◌&&◌, List, [], ◌∷◌, Text, none, some, ltb, ◌==◌,
  within, if◌then◌else◌, length, all, filter,
}
use maskit_rs.Str.{to_digit, is_ascii_digit, byte_len}

-- `num.chars().filter_map(|c| c.to_digit(10))`
unfoldable pub digits : Text → List ℕ
unfolding to_digit
digits [] = []
digits (c ∷ s) = elim (to_digit c) [ none ↦ digits s | some d ↦ d ∷ digits s ]

unfoldable pub weigh : Bool → ℕ → ℕ
weigh dbl d = if dbl then (if ltb 4 d then d * 2 - 9 else d * 2) else d

-- the loop, over the digits from the right
unfoldable pub luhn_loop : List ℕ → ℕ → Bool → ℕ
unfolding weigh
luhn_loop [] sum dbl = sum
luhn_loop (d ∷ ds) sum dbl = luhn_loop ds (sum + weigh dbl d) (not dbl)

unfoldable pub luhn_ok : Text → Bool
unfolding digits luhn_loop
luhn_ok num =
    if ltb (length (digits num)) 12
    then false
    else luhn_loop (reverse (digits num)) 0 false % 10 == 0

unfoldable pub card_ok : Text → Bool
unfolding luhn_ok byte_len
card_ok orig =
    let ds = filter is_ascii_digit orig in
    if not (within 13 19 (byte_len ds))
    then false
    else if not (all is_ascii_digit ds)
    then false
    else luhn_ok ds
