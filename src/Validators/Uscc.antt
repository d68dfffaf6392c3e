-- ===== src/Validators/Uscc.antt =====
-- src/mask/validators.rs, `uscc_ok`: unified social credit codes.
pub mod Check
use maskit_rs.Base.{
  ℕ, suc, ◌+◌, ◌-◌, ◌*◌, ◌%◌, Bool, false, not, Option, none, some, List, [], ◌∷◌, Text, codes,
  ◌==◌, if◌then◌else◌, take, get_or,
}
use maskit_rs.Str.{as_bytes, byte_len}

abbrev pub uscc_chars : Text
uscc_chars = codes "0123456789ABCDEFGHJKLMNPQRTUWXY"

abbrev pub uscc_weights : List ℕ
uscc_weights = 1 ∷ 3 ∷ 9 ∷ 27 ∷ 19 ∷ 26 ∷ 16 ∷ 17 ∷ 20 ∷ 29 ∷ 25 ∷ 13 ∷ 8 ∷ 24 ∷ 10 ∷ 30 ∷ 28 ∷ []

-- `iter().position(|&x| x == c)`
unfoldable pub position_from : ℕ → ℕ → Text → Option ℕ
position_from i c [] = none
position_from i c (x ∷ xs) =
    let later = position_from (suc i) c xs in if x == c then some i else later

unfoldable pub idx : ℕ → Option ℕ
unfolding position_from
idx c = position_from 0 c uscc_chars

-- The loop over the places; a byte out of the table ends it.
unfoldable pub uscc_total : List ℕ → List ℕ → ℕ → Option ℕ
uscc_total [] bs total = some total
uscc_total (w ∷ ws) [] total = some total
uscc_total (w ∷ ws) (b ∷ bs) total = elim (idx b) [
  | none ↦ none
  | some v ↦ uscc_total ws bs (total + w * v)
]

unfoldable pub uscc_ok : Text → Bool
unfolding uscc_total
uscc_ok orig =
    if not (byte_len orig == 18)
    then false
    else elim (uscc_total uscc_weights (take 17 (as_bytes orig)) 0) [
      | none ↦ false
      | some total ↦ get_or uscc_chars ((31 - total % 31) % 31) 0 == get_or (as_bytes orig) 17 0
    ]
