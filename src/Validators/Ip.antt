-- ===== src/Validators/Ip.antt =====
-- src/mask/validators.rs, `ipv4_parts` and `ip_public_ok`: public IPv4 addresses.
pub mod Blocks
use maskit_rs.Base.{
  ℕ, ◌-◌, ◌^◌, Bool, true, false, not, ◌&&◌, ◌||◌, Option, none, some, List, [], ◌∷◌, map, Text,
  codes, contains, ltb, leb, ◌==◌, within, if◌then◌else◌, all, is_empty, ◌>>=◌,
}
use maskit_rs.Base.Map.{text_eq}
use maskit_rs.Str.{is_ascii_digit, byte_len, parse_unsigned, split}

unfoldable pub known_public_dns : List Text
known_public_dns = map codes (
    "8.8.8.8" ∷ "8.8.4.4" ∷ "1.1.1.1" ∷ "1.0.0.1" ∷ "4.2.2.1" ∷ "4.2.2.2" ∷ "4.2.2.3"
    ∷ "114.114.114.114" ∷ "114.114.115.115" ∷ "223.5.5.5" ∷ "223.6.6.6" ∷ "119.29.29.29"
    ∷ "180.76.76.76" ∷ "9.9.9.9" ∷ "208.67.222.222" ∷ "208.67.220.220" ∷ [])

-- One part: one to three digits, at most 255.
unfoldable pub ipv4_part : Text → Option ℕ
ipv4_part p =
    if is_empty p || ltb 3 (byte_len p) || not (all is_ascii_digit p)
    then none
    else (do v ← parse_unsigned (2 ^ 32) p; if ltb 255 v then none else some v)

unfoldable pub four_parts : List Text → Option (ℕ × ℕ × ℕ × ℕ)
four_parts (p ∷ q ∷ r ∷ s ∷ []) = do
  a ← ipv4_part p
  b ← ipv4_part q
  c ← ipv4_part r
  d ← ipv4_part s
  some (a, b, c, d)
four_parts _ = none

unfoldable pub ipv4_parts : Text → Option (ℕ × ℕ × ℕ × ℕ)
ipv4_parts orig = four_parts (split b'.' orig)

unfoldable pub is_private : ℕ → ℕ → ℕ → Bool
is_private a b c =
    a == 10
    || a == 172 && within 16 31 b
    || a == 192 && b == 168
    || a == 169 && b == 254
    || a == 100 && within 64 127 b
    || a == 127
    || a == 0
    || a == 192 && b == 0 && c == 0
    || a == 192 && b == 0 && c == 2
    || a == 198 && b == 51 && c == 100
    || a == 203 && b == 0 && c == 113
    || a == 192 && b == 88 && c == 99
    || a == 198 && (b == 18 || b == 19)
    || leb 224 a

-- Version numbers: four parts of one digit, or a build number.
unfoldable pub version_like : List Text → Bool
version_like segs = all (λ s. byte_len s == 1) segs || (elim segs [
  | s0 ∷ _ ∷ s2 ∷ s3 ∷ _ ↦ byte_len s0 == 1 && text_eq s2 (codes "0") && byte_len s3 == 3
  | _ ↦ false
])

unfoldable pub ip_public_ok : Text → Bool
ip_public_ok orig = if contains known_public_dns orig then false else elim (ipv4_parts orig) [
  | none ↦ false
  | some (a, b, c, _) ↦ if version_like (split b'.' orig) then false else not (is_private a b c)
]
