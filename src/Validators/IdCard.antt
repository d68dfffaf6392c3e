-- ===== src/Validators/IdCard.antt =====
-- src/mask/validators.rs, `idcard18_ok`, `idcard15_ok` and `idcard_ok`: identity cards.
-- A slice that would panic gives `none`.
pub mod Check
use maskit_rs.Base.{
  ℕ, zero, suc, ◌+◌, ◌-◌, ◌*◌, ◌/◌, ◌%◌, ◌^◌, Bool, true, false, not, ◌&&◌, ◌||◌, Option, none,
  some, List, [], ◌∷◌, map, Text, codes, contains, ltb, leb, ◌==◌, within, if◌then◌else◌, all,
  get_or, ◌>>=◌,
}
use maskit_rs.Base.Map.{text_eq}
use maskit_rs.Str.{
  Casing, byte_len, is_ascii_digit, slice, split_at, starts_with, to_digit, parse_unsigned,
}
use maskit_rs.Validators.Weighted.{weighted}

abbrev pub idcard_weights : List ℕ
idcard_weights = 7 ∷ 9 ∷ 10 ∷ 5 ∷ 8 ∷ 4 ∷ 2 ∷ 1 ∷ 6 ∷ 3 ∷ 7 ∷ 9 ∷ 10 ∷ 5 ∷ 8 ∷ 4 ∷ 2 ∷ []

abbrev pub idcard_codes : Text
idcard_codes = codes "10X98765432"

unfoldable pub provinces : List Text
provinces = map codes (
    "11" ∷ "12" ∷ "13" ∷ "14" ∷ "15" ∷ "21" ∷ "22" ∷ "23" ∷ "31" ∷ "32" ∷ "33" ∷ "34" ∷ "35" ∷ "36"
    ∷ "37" ∷ "41" ∷ "42" ∷ "43" ∷ "44" ∷ "45" ∷ "46" ∷ "50" ∷ "51" ∷ "52" ∷ "53" ∷ "54" ∷ "61"
    ∷ "62" ∷ "63" ∷ "64" ∷ "65" ∷ "71" ∷ "81" ∷ "82" ∷ [])

unfoldable pub is_valid_province : Text → Bool
is_valid_province prefix = contains provinces prefix

abbrev pub is_leap : ℕ → Bool
is_leap y = y % 4 == 0 && not (y % 100 == 0) || y % 400 == 0

-- The last day of a month from 1 to 12.
unfoldable pub max_day : ℕ → ℕ → ℕ
max_day y m =
    if m == 1 || m == 3 || m == 5 || m == 7 || m == 8 || m == 10 || m == 12
    then 31
    else if m == 4 || m == 6 || m == 9 || m == 11
    then 30
    else if is_leap y
    then 29
    else 28

unfoldable pub is_real_date : ℕ → ℕ → ℕ → Bool
is_real_date y m d = if not (within 1 12 m) then false else within 1 (max_day y m) d

-- The year of a moment in seconds since 1970, by the civil calendar.
unfoldable pub current_year : ℕ → ℕ
current_year secs =
    let z = secs / 86400 + 719468 in
    let era = z / 146097 in
    let doe = z - era * 146097 in
    let yoe = (doe - doe / 1460 + doe / 36524 - doe / 146096) / 365 in
    let y = yoe + era * 400 in
    let doy = doe - (365 * yoe + yoe / 4 - yoe / 100) in
    let mp = (5 * doy + 2) / 153 in
    let m = if ltb mp 10 then mp + 3 else mp - 9 in if leb m 2 then y + 1 else y

-- `s.parse().unwrap_or(0)` of a text of digits
unfoldable pub number_or_zero : Text → ℕ
number_or_zero s = elim (parse_unsigned (2 ^ 31) s) [ none ↦ 0 | some n ↦ n ]

-- `c.to_digit(10).unwrap_or(0)`
unfoldable pub digit_or_zero : ℕ → ℕ
unfolding to_digit
digit_or_zero c = elim (to_digit c) [ none ↦ 0 | some d ↦ d ]

unfoldable pub check_char : Text → ℕ
unfolding weighted
check_char body = get_or idcard_codes (weighted idcard_weights (map digit_or_zero body) % 11) 0

module _ (u : Casing) where
  -- Behind the test of the form: `body` is the first 17 digits, `last` the check character.
  unfoldable pub idcard18_body : Text → Text → ℕ → Option Bool
  idcard18_body body last now_year = do
    province ← slice 0 2 body
    year ← slice 6 10 body
    month ← slice 10 12 body
    day ← slice 12 14 body
    let y = number_or_zero year in
        some (
          if not (is_valid_province province)
          then false
          else if not (is_real_date y (number_or_zero month) (number_or_zero day))
          then false
          else if not (within 1880 now_year y)
          then false
          else starts_with (check_char body ∷ []) (u.to_uppercase last))

  unfoldable pub idcard18_ok_at : Text → ℕ → Option Bool
  idcard18_ok_at num now_year = if not (byte_len num == 18) then some false else (do
    (body, last) ← split_at 17 num
    if not (all is_ascii_digit body) then some false else idcard18_body body last now_year)

  unfoldable pub idcard18_ok : ℕ → Text → Option Bool
  idcard18_ok secs num = idcard18_ok_at num (current_year secs)

unfoldable pub idcard15_ok : Text → Option Bool
idcard15_ok num =
    if not (byte_len num == 15) || not (all is_ascii_digit num) then some false else (do
      province ← slice 0 2 num
      year ← slice 6 8 num
      month ← slice 8 10 num
      day ← slice 10 12 num
      let y = 1900 + number_or_zero year in
          some (
            if not (is_valid_province province)
            then false
            else if not (is_real_date y (number_or_zero month) (number_or_zero day))
            then false
            else within 1900 1999 y))

module _ (u : Casing) where
  unfoldable pub idcard_ok : ℕ → Text → Option Bool
  unfolding idcard18_ok
  idcard_ok secs num =
      if byte_len num == 18
      then idcard18_ok u secs num
      else if byte_len num == 15
      then idcard15_ok num
      else some false
