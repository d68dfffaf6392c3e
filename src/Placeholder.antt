-- ===== src/Placeholder.antt =====
-- src/mask/placeholder.rs: the tokens `{{LABEL_suffix}}` that stand for sensitive values, and the
-- patterns that find them.
pub mod Label
pub mod Format
pub mod Strict
pub mod Generate
pub mod Derive
use maskit_rs.Base.{
  ℕ, zero, suc, ◌+◌, ◌%◌, ◌^◌, ◌<◌, ◌≡◌, Bool, true, false, ◌&&◌, ◌||◌, Option, none, some, List,
  [], ◌∷◌, ◌++◌, map, Text, codes, ◌==◌, within, if◌then◌else◌, length, take, get_or, all, any,
  filter, ◌>>=◌,
}
use maskit_rs.Base.{contains}
use maskit_rs.Str.{
  Casing, is_ascii_uppercase, is_ascii_lowercase, as_bytes, show_nat, is_ascii_digit,
  is_ascii_alphanumeric, is_whitespace, trim, strip_prefix, strip_suffix, rsplit_once, byte_len,
}
use maskit_rs.Regex.{
  Rx, eps, eos, rep, many, seq, alt, group, one, char, times_1_3, fold_case, is_match, match_here,
  find,
}

abbrev pub token_alphabet : Text
token_alphabet = codes "bcdfghjkmnpqrstvwxz"

abbrev pub open_braces : Text
open_braces = codes "{{"

abbrev pub close_braces : Text
close_braces = codes "}}"

-- `format!("{{{{{lab}_{suffix}}}}}")`
unfoldable pub format_token : Text → Text → Text
format_token lab suffix = open_braces ++ ((lab ++ b'_' ∷ suffix) ++ close_braces)

abbrev pub is_label_char : ℕ → Bool
is_label_char c = is_ascii_uppercase c || is_ascii_digit c

unfoldable pub is_token_char : ℕ → Bool
is_token_char c = any (λ a. a == c) token_alphabet

-- The white space that a trim drops is no part of a body.
unfoldable pub token_body : Text → Option Text
token_body token = do
  t ← strip_prefix open_braces token
  inner ← strip_suffix close_braces t
  some (trim inner)

unfoldable pub token_label : Text → Text
token_label token = elim (token_body token) [
  | none ↦ []
  | some body ↦ elim (rsplit_once b'_' body) [ none ↦ [] | some (lab, _) ↦ lab ]
]

unfoldable pub suffix_indexable : Text → Bool
suffix_indexable suffix = byte_len suffix == 6 && all is_token_char suffix

module _ (u : Casing) where
  unfoldable pub safe_label : Text → Text
  safe_label label =
      let trimmed = take 12 (filter is_label_char (u.to_uppercase label)) in
      elim trimmed [ [] ↦ codes "TERM" | c ∷ r ↦ c ∷ r ]

  unfoldable pub token_suffix : Text → Text
  token_suffix token = elim (token_body token) [
    | none ↦ []
    | some body ↦ elim (rsplit_once b'_' body) [ none ↦ [] | some (_, sfx) ↦ u.to_lowercase sfx ]
  ]

  unfoldable pub canonicalize : Text → Text → Text
  unfolding format_token safe_label
  canonicalize label_raw suffix = format_token (safe_label label_raw) (u.to_lowercase suffix)

-- What `rng.gen_range(0..n)` returns at position `j` of the attempt `i`, below `n` by its contract.
pub record Draws : Type 0 where
  pub gen_range : ℕ → ℕ → ℕ → ℕ
  pub gen_range_lt : (n i j : ℕ) → gen_range (suc n) i j < suc n

module _ (d : Draws) where
  unfoldable pub rand_from : ℕ → ℕ → ℕ → Text
  rand_from zero i j = []
  rand_from (suc k) i j =
      get_or token_alphabet (d.gen_range (length token_alphabet) i j) 0 ∷ rand_from k i (j + 1)

  -- the suffix of the attempt `i`
  unfoldable pub rand_suffix : ℕ → Text
  unfolding rand_from
  rand_suffix i = rand_from 6 i 0

  -- The loop with `k` attempts left; the last token is taken unchecked.
  unfoldable pub new_token_from : (Text → Text → Bool) → Text → ℕ → ℕ → Text
  unfolding rand_suffix format_token
  new_token_from taken lab zero i = format_token lab (rand_suffix i)
  new_token_from taken lab (suc k) i =
      let again = new_token_from taken lab k (i + 1) in
      if taken (format_token lab (rand_suffix i)) (rand_suffix i)
      then again
      else format_token lab (rand_suffix i)

  unfoldable pub new_token : Casing → Text → (Text → Text → Bool) → Text
  unfolding new_token_from safe_label
  new_token u label taken = new_token_from taken (safe_label u label) 20 0

-- SHA-256 on bytes: 32 bytes.
pub record Sha256 : Type 0 where
  pub digest : List ℕ → List ℕ
  pub length-digest : (bytes : List ℕ) → length (digest bytes) ≡ 32

module _ (h : Sha256) (orig : Text) where
  -- the candidate of one round
  unfoldable pub derived_suffix : ℕ → Text
  unfolding as_bytes show_nat
  derived_suffix counter =
      let digest =
        h.digest (as_bytes (codes "maskit_cw:" ++ (show_nat counter ++ (b':' ∷ orig)))) in
      map (λ b. get_or token_alphabet (b % length token_alphabet) 0) (take 6 digest)

  -- The loop, with fuel: the suffix, and the set with it; `none` if the fuel runs out.
  unfoldable pub derive_from : ℕ → ℕ → List Text → Option (Text × List Text)
  derive_from zero counter used = none
  derive_from (suc fuel) counter used =
      let again = derive_from fuel ((counter + 1) % 2 ^ 32) used in
      let suffix = derived_suffix counter in
      if contains used suffix then again else some (suffix, suffix ∷ used)

  unfoldable pub deterministic_suffix : ℕ → List Text → Option (Text × List Text)
  deterministic_suffix fuel used = derive_from fuel 0 used

-- `SUFFIX_PAT`, under a case mode
abbrev pub is_hex_char : ℕ → Bool
is_hex_char c = is_ascii_digit c || within b'a' b'f' c

abbrev pub exact : (ℕ → Bool) → ℕ → Bool
exact p = p

abbrev pub suffix_pat : ((ℕ → Bool) → ℕ → Bool) → Rx
suffix_pat mode = alt (rep 6 6 (mode is_hex_char)) (rep 6 6 (mode is_token_char))

abbrev pub is_word : ℕ → Bool
is_word c = is_ascii_alphanumeric c || c == b'_'

abbrev pub backslashes : Rx
backslashes = rep 0 3 (λ c. c == b'\\')

unfoldable pub placeholder_rx : Rx
unfolding is_token_char
placeholder_rx = seq (char b'{') (
    seq (char b'{') (
      seq (rep 1 12 is_label_char)
        (seq (char b'_') (seq (suffix_pat exact) (seq (char b'}') (char b'}'))))))

unfoldable pub braced_placeholder_rx : Rx
unfolding is_token_char fold_case is_whitespace
braced_placeholder_rx = seq (rep 2 2 (λ c. c == b'{')) (
    seq (many is_whitespace) (
      seq (group (rep 1 12 is_word)) (
        seq (char b'_') (
          seq (group (suffix_pat fold_case))
            (seq (many is_whitespace) (rep 2 2 (λ c. c == b'}')))))))

-- Behind its `^`.
unfoldable pub any_braced_suffix_rx : Rx
unfolding is_token_char fold_case is_whitespace
any_braced_suffix_rx = seq (rep 2 2 (λ c. c == b'{')) (
    seq (many is_whitespace) (
      seq (group (rep 1 12 (fold_case is_word))) (
        seq (char b'_') (
          seq (group (suffix_pat fold_case))
            (seq (many is_whitespace) (seq (rep 2 2 (λ c. c == b'}')) eos))))))

unfoldable pub escaped_placeholder_rx : Rx
unfolding is_token_char fold_case is_whitespace
escaped_placeholder_rx = seq (times_1_3 (seq backslashes (char b'{'))) (
    seq backslashes (
      seq (many is_whitespace) (
        seq (group (rep 1 12 (fold_case is_word))) (
          seq (char b'_') (
            seq (group (suffix_pat fold_case))
              (seq (many is_whitespace) (times_1_3 (seq backslashes (char b'}')))))))))

unfoldable pub loose_placeholder_rx : Rx
unfolding is_token_char fold_case is_whitespace
loose_placeholder_rx =
    alt
      (seq (rep 1 2 (λ c. c == b'{')) (
        seq (many is_whitespace) (
          seq (group (seq (rep 1 12 is_word) (seq (char b'_') (suffix_pat fold_case))))
            (seq (many is_whitespace) (rep 0 2 (λ c. c == b'}'))))))
      (group (seq (rep 1 12 is_label_char) (seq (char b'_') (suffix_pat fold_case))))

unfoldable pub partial_rx : Rx
unfolding is_whitespace
partial_rx =
    alt
      (seq (times_1_3 (seq backslashes (char b'{'))) (
        seq (rep 0 4 is_whitespace) (
          seq (rep 0 20 is_word) (
            seq (rep 0 4 is_whitespace)
              (seq backslashes (seq (rep 0 1 (λ c. c == b'}')) (seq backslashes eos)))))))
      (alt (seq (rep 1 3 (λ c. c == b'\\')) eos) (
        seq (rep 1 12 is_label_char)
          (seq (char b'_') (seq (rep 0 5 (λ c. is_ascii_lowercase c || is_ascii_digit c)) eos))))

abbrev pub partial_max : ℕ
partial_max = 48

unfoldable pub parse_canonical : Casing → Text → Option (Text × Text)
parse_canonical u token =
    if is_match placeholder_rx token then some (token_label token, token_suffix u token) else none
