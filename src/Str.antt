-- ===== src/Str.antt =====
-- The operations of `str` and `char` that the source calls, on texts as lists of code points.
-- Byte lengths and byte offsets are those of the UTF-8 encoding, which is written out here.
pub mod Laws
use mathlib.Core.List.{reverse}
use mathlib.Core.Option
use maskit_rs.Base.{
  ℕ, zero, suc, ◌+◌, ◌-◌, ◌/◌, ◌%◌, ◌≡◌, Bool, true, false, ◌&&◌, ◌||◌, Option, none, some, List,
  [], ◌∷◌, ◌++◌, map, ◌*◌, not, is_empty, Text, codes, ◌==◌, leb, ltb, within, if◌then◌else◌,
  length, all, any, ◌>>=◌,
}

-- The UTF-8 bytes of one code point.
unfoldable pub utf8 : ℕ → List ℕ
utf8 c =
    if ltb c 0x80
    then c ∷ []
    else if ltb c 0x800
    then (0xC0 + c / 64) ∷ (0x80 + c % 64) ∷ []
    else if ltb c 0x10000
    then (0xE0 + c / 4096) ∷ (0x80 + c / 64 % 64) ∷ (0x80 + c % 64) ∷ []
    else (0xF0 + c / 262144) ∷ (0x80 + c / 4096 % 64) ∷ (0x80 + c / 64 % 64) ∷ (0x80 + c % 64) ∷ []

-- `str::as_bytes` and `str::len`.
unfoldable pub as_bytes : Text → List ℕ
unfolding utf8
as_bytes [] = []
as_bytes (c ∷ s) = utf8 c ++ as_bytes s

unfoldable pub byte_len : Text → ℕ
unfolding as_bytes
byte_len s = length (as_bytes s)

-- `&s[..i]` and `&s[i..]` at a byte offset: `none` where the slice panics.
unfoldable pub split_at : ℕ → Text → Option (Text × Text)
unfolding utf8
split_at i [] = if i == 0 then some ([], []) else none
split_at i (c ∷ s) =
    let n = length (utf8 c) in
    let deeper = (do (a, b) ← split_at (i - n) s; some (c ∷ a, b)) in
    if i == 0 then some ([], c ∷ s) else if leb n i then deeper else none

abbrev pub is_ascii : ℕ → Bool
is_ascii c = ltb c 0x80

abbrev pub is_ascii_digit : ℕ → Bool
is_ascii_digit c = within b'0' b'9' c

abbrev pub is_ascii_uppercase : ℕ → Bool
is_ascii_uppercase c = within b'A' b'Z' c

abbrev pub is_ascii_lowercase : ℕ → Bool
is_ascii_lowercase c = within b'a' b'z' c

abbrev pub is_ascii_alphabetic : ℕ → Bool
is_ascii_alphabetic c = is_ascii_uppercase c || is_ascii_lowercase c

abbrev pub is_ascii_alphanumeric : ℕ → Bool
is_ascii_alphanumeric c = is_ascii_alphabetic c || is_ascii_digit c

unfoldable pub to_ascii_uppercase : ℕ → ℕ
to_ascii_uppercase c = if is_ascii_lowercase c then c - 32 else c

unfoldable pub to_ascii_lowercase : ℕ → ℕ
to_ascii_lowercase c = if is_ascii_uppercase c then c + 32 else c

-- `char::to_digit(10)`
unfoldable pub to_digit : ℕ → Option ℕ
to_digit c = if is_ascii_digit c then some (c - b'0') else none

-- The White_Space property of Unicode, which `char::is_whitespace` and `\s` read.
unfoldable pub is_whitespace : ℕ → Bool
is_whitespace c =
    within 0x9 0xD c
    || c == 0x20
    || c == 0x85
    || c == 0xA0
    || c == 0x1680
    || within 0x2000 0x200A c
    || c == 0x2028
    || c == 0x2029
    || c == 0x202F
    || c == 0x205F
    || c == 0x3000

unfoldable pub trim_start_matches : (ℕ → Bool) → Text → Text
trim_start_matches p [] = []
trim_start_matches p (c ∷ s) = let rest = trim_start_matches p s in if p c then rest else c ∷ s

unfoldable pub trim_end_matches : (ℕ → Bool) → Text → Text
trim_end_matches p [] = []
trim_end_matches p (c ∷ s) = elim (trim_end_matches p s) [
  | [] ↦ if p c then [] else c ∷ []
  | d ∷ r ↦ c ∷ d ∷ r
]

-- `str::trim`
unfoldable pub trim : Text → Text
unfolding trim_start_matches trim_end_matches is_whitespace
trim s = trim_end_matches is_whitespace (trim_start_matches is_whitespace s)

unfoldable pub strip_prefix : Text → Text → Option Text
strip_prefix [] s = some s
strip_prefix (p ∷ ps) [] = none
strip_prefix (p ∷ ps) (c ∷ s) = let rest = strip_prefix ps s in if p == c then rest else none

unfoldable pub starts_with : Text → Text → Bool
unfolding strip_prefix
starts_with p s = elim (strip_prefix p s) [ none ↦ false | some _ ↦ true ]

-- The text before a suffix.
unfoldable pub strip_suffix : Text → Text → Option Text
unfolding strip_prefix
strip_suffix p s = Option.map reverse (strip_prefix (reverse p) (reverse s))

unfoldable pub ends_with : Text → Text → Bool
unfolding strip_suffix
ends_with p s = elim (strip_suffix p s) [ none ↦ false | some _ ↦ true ]

-- `str::contains` with a text
unfoldable pub contains_str : Text → Text → Bool
unfolding starts_with
contains_str p [] = starts_with p []
contains_str p (c ∷ s) = starts_with p (c ∷ s) || contains_str p s

-- `split_once(c)` and `rsplit_once(c)`: at the first and at the last occurrence
unfoldable pub split_once : ℕ → Text → Option (Text × Text)
split_once d [] = none
split_once d (c ∷ s) =
    let deeper = (do (a, b) ← split_once d s; some (c ∷ a, b)) in
    if c == d then some ([], s) else deeper

unfoldable pub rsplit_once : ℕ → Text → Option (Text × Text)
rsplit_once d [] = none
rsplit_once d (c ∷ s) = elim (rsplit_once d s) [
  | some (a, b) ↦ some (c ∷ a, b)
  | none ↦ if c == d then some ([], s) else none
]

-- `split(c)`: the part under way is the accumulator
unfoldable pub split_from : ℕ → Text → Text → List Text
split_from d cur [] = cur ∷ []
split_from d cur (c ∷ s) =
    let cut = cur ∷ split_from d [] s in
    let go = split_from d (cur ++ c ∷ []) s in if c == d then cut else go

unfoldable pub split : ℕ → Text → List Text
unfolding split_from
split d s = split_from d [] s

-- Unicode case mappings of whole texts, which the standard library takes from its tables: only
-- their action on ASCII is used.
pub record Casing : Type 0 where
  pub to_uppercase : Text → Text
  pub to_lowercase : Text → Text
  pub upper_ascii : (s : Text) → all is_ascii s ≡ true → to_uppercase s ≡ map to_ascii_uppercase s
  pub lower_ascii : (s : Text) → all is_ascii s ≡ true → to_lowercase s ≡ map to_ascii_lowercase s

-- `n.to_string()`: the digits of `n`, with fuel for those behind the last one.
unfoldable pub show_from : ℕ → ℕ → Text → Text
show_from zero n out = (b'0' + n % 10) ∷ out
show_from (suc fuel) n out =
    let out' = (b'0' + n % 10) ∷ out in
    let rest = show_from fuel (n / 10) out' in if n / 10 == 0 then out' else rest

unfoldable pub show_nat : ℕ → Text
unfolding show_from
show_nat n = show_from n n []

-- The number that decimal digits write.
unfoldable pub digits_value : ℕ → Text → ℕ
digits_value n [] = n
digits_value n (c ∷ s) = digits_value (n * 10 + (c - b'0')) s

unfoldable pub parse_digits : ℕ → Text → Option ℕ
unfolding digits_value
parse_digits limit s =
    if is_empty s || not (all is_ascii_digit s)
    then none
    else if ltb (digits_value 0 s) limit
    then some (digits_value 0 s)
    else none

-- `str::parse` of an unsigned type: digits behind at most one plus sign, below the limit of the type.
unfoldable pub parse_unsigned : ℕ → Text → Option ℕ
unfolding parse_digits
parse_unsigned limit [] = none
parse_unsigned limit (c ∷ s) =
    if c == b'+' then parse_digits limit s else parse_digits limit (c ∷ s)

-- `&s[a..b]`: `none` where the slice panics.
unfoldable pub slice : ℕ → ℕ → Text → Option Text
unfolding split_at
slice a b s = do (front, _) ← split_at b s; (_, part) ← split_at a front; some part
