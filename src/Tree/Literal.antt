-- ===== src/Tree/Literal.antt =====
-- src/mask/tree.rs: the texts of JSON strings, written (`json_string_literal`, and the escapes of
-- `serialize_compact`) and read back (`read_json_string`).
pub mod RoundTrip
use maskit_rs.Base.{
  ℕ, zero, suc, ◌+◌, ◌-◌, ◌*◌, ◌/◌, ◌%◌, Bool, true, false, not, ◌&&◌, ◌||◌, Option, none, some,
  Text, List, [], ◌∷◌, ◌++◌, is_empty, length, take, drop, ltb, leb, within, ◌==◌, if◌then◌else◌,
  ◌>>=◌,
}
use maskit_rs.Base.Map.{text_eq}
use maskit_rs.Str.{utf8, as_bytes}

-- `{:04x}` of a number of at most four such digits
unfoldable pub hex_digit : ℕ → ℕ
hex_digit d = if ltb d 10 then b'0' + d else b'a' + (d - 10)

unfoldable pub hex4 : ℕ → Text
unfolding hex_digit
hex4 n =
    hex_digit (n / 4096 % 16)
    ∷ hex_digit (n / 256 % 16)
    ∷ hex_digit (n / 16 % 16)
    ∷ hex_digit (n % 16)
    ∷ []

unfoldable pub u_escape : ℕ → Text
unfolding hex4
u_escape n = b'\\' ∷ b'u' ∷ hex4 n

-- Outside the basic plane, a pair of surrogates.
unfoldable pub unicode_escape : ℕ → Text
unfolding u_escape
unicode_escape cp =
    if ltb 0xFFFF cp
    then u_escape (0xD800 + (cp - 0x10000) / 1024) ++ u_escape (0xDC00 + (cp - 0x10000) % 1024)
    else u_escape cp

unfoldable pub literal_char : Bool → ℕ → List ℕ
literal_char ascii_esc c =
    if c == b'"'
    then b'\\' ∷ b'"' ∷ []
    else if c == b'\\'
    then b'\\' ∷ b'\\' ∷ []
    else if c == 0xA
    then b'\\' ∷ b'n' ∷ []
    else if c == 0xD
    then b'\\' ∷ b'r' ∷ []
    else if c == 0x9
    then b'\\' ∷ b't' ∷ []
    else if ltb c 0x20
    then u_escape c
    else if ascii_esc && ltb 0x7F c
    then unicode_escape c
    else utf8 c

-- The bytes of a JSON string without its quotes.
unfoldable pub json_string_literal : Text → Bool → List ℕ
unfolding literal_char
json_string_literal [] ascii_esc = []
json_string_literal (c ∷ s) ascii_esc = literal_char ascii_esc c ++ json_string_literal s ascii_esc

-- The loop of `serialize_compact` over the characters of the printed value.
unfoldable pub escape_non_ascii : Text → Text
unfolding unicode_escape
escape_non_ascii [] = []
escape_non_ascii (c ∷ s) = (if ltb 0x7F c then unicode_escape c else c ∷ []) ++ escape_non_ascii s

unfoldable pub utf8_len : ℕ → ℕ
utf8_len b =
    if ltb b 0x80 then 1 else if b / 32 == 0b110 then 2 else if b / 16 == 0b1110 then 3 else 4

-- `char::from_u32`: no surrogate, below the limit of Unicode
unfoldable pub from_u32 : ℕ → Option ℕ
from_u32 c = if within 0xD800 0xDFFF c || leb 0x110000 c then none else some c

abbrev pub is_scalar : ℕ → Bool
is_scalar c = not (within 0xD800 0xDFFF c || leb 0x110000 c)

-- The code point that the bytes of one sequence hold, by the form of the first.
unfoldable pub sequence_value : List ℕ → ℕ
sequence_value (a ∷ []) = a
sequence_value (a ∷ b ∷ []) = a % 32 * 64 + b % 64
sequence_value (a ∷ b ∷ c ∷ []) = a % 16 * 4096 + b % 64 * 64 + c % 64
sequence_value (a ∷ b ∷ c ∷ d ∷ []) = a % 8 * 262144 + b % 64 * 4096 + c % 64 * 64 + d % 64
sequence_value _ = 0

-- `str::from_utf8` of the bytes of at most one sequence: they are its one encoding.
unfoldable pub from_utf8_one : List ℕ → Option Text
unfolding sequence_value
from_utf8_one [] = some []
from_utf8_one (a ∷ bs) =
    let c = sequence_value (a ∷ bs) in
    if is_scalar c && text_eq (utf8 c) (a ∷ bs) then some (c ∷ []) else none

abbrev pub or_empty : Option Text → Text
or_empty none = []
or_empty (some s) = s

-- `u32::from_str_radix(hex, 16)`, behind at most one plus sign
unfoldable pub hex_value : ℕ → Option ℕ
hex_value c =
    if within b'0' b'9' c
    then some (c - b'0')
    else if within b'a' b'f' c
    then some (c - b'a' + 10)
    else if within b'A' b'F' c
    then some (c - b'A' + 10)
    else none

unfoldable pub hex_digits : ℕ → List ℕ → Option ℕ
unfolding hex_value
hex_digits n [] = some n
hex_digits n (c ∷ s) = elim (hex_value c) [ none ↦ none | some d ↦ hex_digits (n * 16 + d) s ]

unfoldable pub from_hex : List ℕ → Option ℕ
unfolding hex_digits
from_hex [] = none
from_hex (c ∷ s) =
    if c == b'+' then (if is_empty s then none else hex_digits 0 s) else hex_digits 0 (c ∷ s)

-- The character of a `\u` escape, if there is one.
unfoldable pub u_char : List ℕ → Text
unfolding from_hex from_u32
u_char hex = or_empty (do cp ← from_hex hex; c ← from_u32 cp; some (c ∷ []))

unfoldable pub unescape : ℕ → ℕ
unescape esc =
    if esc == b'n'
    then 0xA
    else if esc == b'r'
    then 0xD
    else if esc == b't'
    then 0x9
    else if esc == b'b'
    then 0x8
    else if esc == b'f'
    then 0xC
    else esc

-- `read_json_string` behind the opening quote, with fuel for the bytes: the text, and the bytes
-- behind the closing quote.
unfoldable pub read_from : ℕ → List ℕ → Text × List ℕ
unfolding u_char unescape from_utf8_one utf8_len
read_from zero bytes = ([], bytes)
read_from (suc fuel) [] = ([], [])
read_from (suc fuel) (b ∷ []) =
    if b == b'"' then ([], []) else (or_empty (from_utf8_one (b ∷ [])), [])
read_from (suc fuel) (b ∷ esc ∷ bytes) =
    let after_u = read_from fuel (drop 4 bytes) in
    let after_esc = read_from fuel bytes in
    let after_char = read_from fuel (drop (utf8_len b) (b ∷ esc ∷ bytes)) in
    if b == b'"'
    then ([], esc ∷ bytes)
    else if b == b'\\'
    then (if esc == b'u' && leb 4 (length bytes)
        then (u_char (take 4 bytes) ++ after_u.0, after_u.1)
        else (unescape esc ∷ after_esc.0, after_esc.1))
    else (
      or_empty (from_utf8_one (take (utf8_len b) (b ∷ esc ∷ bytes))) ++ after_char.0,
      after_char.1,
    )

unfoldable pub read_json_string : List ℕ → Text × List ℕ
unfolding read_from
read_json_string bytes = read_from (length bytes) bytes
