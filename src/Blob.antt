-- ===== src/Blob.antt =====
-- src/mask/blob.rs: which texts are encoded payloads. A text is taken by its bytes.
pub mod Extract
use maskit_rs.Base.{
  ℕ, zero, suc, ◌+◌, ◌*◌, ◌^◌, Bool, true, false, not, ◌&&◌, ◌||◌, Option, none, some, Text, List,
  [], ◌∷◌, codes, is_empty, length, take, any, ltb, leb, within, ◌==◌, if◌then◌else◌,
}
use Prim.Native.Nat.{min, max}
use maskit_rs.Base.Map.{text_eq}
use maskit_rs.Str.{as_bytes, to_ascii_lowercase, contains_str, starts_with}

-- src/config.rs, `BlobMode`
pub data BlobMode : Type 0 where
  off data_uri auto : BlobMode

pub data BlobKind : Type 0 where
  data_uri_kind bare_base64 : BlobKind

pub record BlobPolicy : Type 0 where
  pub enabled : Bool
  pub mode : BlobMode
  pub min_base64_bytes : ℕ

abbrev pub default_min_base64_bytes : ℕ
default_min_base64_bytes = 8192

abbrev pub data_uri_probe : ℕ
data_uri_probe = 1024

unfoldable pub default_policy : BlobPolicy
default_policy = record { enabled = true; mode = auto; min_base64_bytes = default_min_base64_bytes }

-- The threshold is kept between 1 KiB and 8 MiB.
unfoldable pub from_config : Bool → BlobMode → ℕ → BlobPolicy
from_config enabled mode bytes = record {
  enabled = enabled;
  mode = mode;
  min_base64_bytes = min (max bytes 1024) (8 * 2 ^ 20);
}

abbrev pub is_data_uri_mode : BlobMode → Bool
is_data_uri_mode off = false
is_data_uri_mode data_uri = true
is_data_uri_mode auto = true

abbrev pub is_auto : BlobMode → Bool
is_auto auto = true
is_auto _ = false

abbrev pub is_off : BlobMode → Bool
is_off off = true
is_off _ = false

unfoldable pub wants_data_uri : BlobPolicy → Bool
wants_data_uri p = p.enabled && is_data_uri_mode p.mode

unfoldable pub wants_bare_base64 : BlobPolicy → Bool
wants_bare_base64 p = p.enabled && is_auto p.mode

abbrev pub lower : List ℕ → List ℕ
lower [] = []
lower (b ∷ bs) = to_ascii_lowercase b ∷ lower bs

-- `data:` in front, and `;base64,` within the first bytes, in any case.
unfoldable pub looks_like_base64_data_uri : List ℕ → Bool
unfolding contains_str starts_with to_ascii_lowercase
looks_like_base64_data_uri b =
    starts_with (codes "data:") (lower (take 5 b))
    && contains_str (codes ";base64,") (lower (take data_uri_probe b))

-- What the loop of `looks_like_large_base64` has seen.
pub record Seen : Type 0 where
  pub has_upper : Bool
  pub has_lower : Bool
  pub has_digit : Bool
  pub has_symbol : Bool
  pub pads : ℕ
  pub all_hex : Bool

abbrev pub unseen : Seen
unseen = record {
  has_upper = false;
  has_lower = false;
  has_digit = false;
  has_symbol = false;
  pads = 0;
  all_hex = true;
}

-- One byte; `seen_pad` says that there has been a pad. `none` where the loop returns false.
unfoldable pub see : ℕ → Seen → Option Seen
see c s =
    if ltb 0 s.pads && not (c == b'=')
    then none
    else if within b'A' b'Z' c
    then some (record s { has_upper = true; all_hex = false })
    else if within b'a' b'f' c
    then some (record s { has_lower = true })
    else if within b'g' b'z' c
    then some (record s { has_lower = true; all_hex = false })
    else if within b'0' b'9' c
    then some (record s { has_digit = true })
    else if c == b'+' || c == b'/' || c == b'-' || c == b'_'
    then some (record s { has_symbol = true; all_hex = false })
    else if c == b'='
    then (if ltb 2 (s.pads + 1)
        then none
        else some (record s { has_symbol = true; all_hex = false; pads = s.pads + 1 }))
    else none

unfoldable pub see_all : List ℕ → Seen → Option Seen
unfolding see
see_all [] s = some s
see_all (c ∷ b) s = elim (see c s) [ none ↦ none | some s' ↦ see_all b s' ]

abbrev pub one_if : Bool → ℕ
one_if true = 1
one_if false = 0

unfoldable pub classes : Seen → ℕ
classes s = one_if s.has_upper + one_if s.has_lower + one_if s.has_digit + one_if s.has_symbol

unfoldable pub looks_like_large_base64 : List ℕ → ℕ → Bool
unfolding see_all classes
looks_like_large_base64 b min_bytes =
    if ltb (length b) min_bytes then false else elim (see_all b unseen) [
      | none ↦ false
      | some s ↦ not s.all_hex && (leb 3 (classes s) && s.has_symbol)
    ]

unfoldable pub classify_bytes : List ℕ → BlobPolicy → Option BlobKind
unfolding wants_data_uri wants_bare_base64 looks_like_base64_data_uri looks_like_large_base64
classify_bytes content p =
    if not p.enabled || is_empty content
    then none
    else if any (λ b. b == b'\\') content
    then none
    else if wants_data_uri p && looks_like_base64_data_uri content
    then some data_uri_kind
    else if wants_bare_base64 p && looks_like_large_base64 content p.min_base64_bytes
    then some bare_base64
    else none

abbrev pub is_some_kind : Option BlobKind → Bool
is_some_kind none = false
is_some_kind (some _) = true

unfoldable pub is_skippable_str : Text → BlobPolicy → Bool
unfolding classify_bytes as_bytes
is_skippable_str s p =
    if not p.enabled || is_empty s
    then false
    else if ltb (length (as_bytes s)) p.min_base64_bytes
        && not (looks_like_base64_data_uri (as_bytes s))
    then false
    else is_some_kind (classify_bytes (as_bytes s) p)
