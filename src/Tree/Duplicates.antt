-- ===== src/Tree/Duplicates.antt =====
-- src/mask/tree.rs, `detect_duplicate_keys`: a scan of the bytes of a JSON text.
use maskit_rs.Base.{
  ℕ, zero, suc, Bool, true, false, ◌||◌, Option, none, some, Text, List, [], ◌∷◌, contains, length,
  drop, ◌==◌, if◌then◌else◌,
}
use maskit_rs.Str.{as_bytes, is_whitespace}
use maskit_rs.Tree.Literal.{read_json_string}

-- The containers that are open, innermost first: the keys of an object so far, nothing for an array;
-- and `expecting_key` for each.
pub record Scan : Type 0 where
  pub stack : List (Option (List Text))
  pub expecting_key : List Bool

abbrev pub scan_start : Scan
scan_start = record { stack = []; expecting_key = [] }

abbrev set_last : List Bool → Bool → List Bool
set_last [] b = []
set_last (x ∷ xs) b = b ∷ xs

abbrev in_object : List (Option (List Text)) → Bool
in_object (some _ ∷ _) = true
in_object _ = false

unfoldable pub open_object : Scan → Scan
open_object c = record { stack = some [] ∷ c.stack; expecting_key = true ∷ c.expecting_key }

unfoldable pub open_array : Scan → Scan
open_array c = record { stack = none ∷ c.stack; expecting_key = false ∷ c.expecting_key }

unfoldable pub close : Scan → Scan
close c = record { stack = drop 1 c.stack; expecting_key = drop 1 c.expecting_key }

unfoldable pub comma : Scan → Scan
comma c = record c {
  expecting_key = if in_object c.stack then set_last c.expecting_key true else c.expecting_key;
}

-- The next byte that is no white space is a colon.
unfoldable pub is_key : List ℕ → Bool
unfolding is_whitespace
is_key [] = false
is_key (b ∷ bytes) = let later = is_key bytes in if is_whitespace b then later else b == b':'

-- `set.insert(s)`: nothing where the key is there.
unfoldable pub add_key : Text → List (Option (List Text)) → List Bool → Option Scan
add_key s (some set ∷ stack) expecting_key =
    if contains set s
    then none
    else some
        (record { stack = some (s ∷ set) ∷ stack; expecting_key = set_last expecting_key false })
add_key s stack expecting_key = some (record { stack = stack; expecting_key = expecting_key })

-- The loop, with fuel for the bytes.
unfoldable pub scan : ℕ → List ℕ → Scan → Bool
unfolding open_object open_array close comma is_key add_key
scan zero bytes c = false
scan (suc fuel) [] c = false
scan (suc fuel) (b ∷ bytes) c =
    let into_object = scan fuel bytes (open_object c) in
    let into_array = scan fuel bytes (open_array c) in
    let out_of = scan fuel bytes (close c) in
    let next = scan fuel bytes (comma c) in
    let skip = scan fuel bytes c in
    let read = read_json_string bytes in
    let past_string = scan fuel read.1 c in
    let past_key = (λ (c' : Scan). scan fuel read.1 c') in
    if b == b'{'
    then into_object
    else if b == b'['
    then into_array
    else if b == b'}' || b == b']'
    then out_of
    else if b == b'"'
    then (if is_key read.1
        then (elim (add_key read.0 c.stack c.expecting_key) [ none ↦ true | some c' ↦ past_key c' ])
        else past_string)
    else if b == b','
    then next
    else skip

unfoldable pub detect_duplicate_keys : Text → Bool
unfolding scan
detect_duplicate_keys text = let bytes = as_bytes text in scan (length bytes) bytes scan_start
