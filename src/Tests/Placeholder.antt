-- ===== src/Tests/Placeholder.antt =====
-- Tokens: runs taken from the repository's tests, and the theorems at concrete inputs.
use maskit_rs.Base.{
  ℕ, ◌≡◌, ◌≤◌, ◌<◌, refl, Bool, true, false, List, [], ◌∷◌, ◌++◌, Text, codes, none, some, contains,
  ◌⊎◌, ◌↔◌, arith, inl, inr, length, all,
}
use maskit_rs.Str.{
  split_at, strip_prefix, strip_suffix, trim, rsplit_once, byte_len, to_ascii_uppercase, show_nat,
}
use maskit_rs.Regex.{is_match}
use maskit_rs.Placeholder.{
  safe_label, token_suffix, token_label, token_body, suffix_indexable, format_token, new_token,
  rand_suffix, placeholder_rx, braced_placeholder_rx, escaped_placeholder_rx, loose_placeholder_rx,
  partial_rx, parse_canonical, derived_suffix, deterministic_suffix,
}
use maskit_rs.Placeholder.Strict.{HasToken, placeholder_rx-HasToken}
use maskit_rs.Placeholder.Generate.{new_token_lem, Refused}
use maskit_rs.Placeholder.Derive.{deterministic_suffix_lem, Used}
use maskit_rs.Placeholder.Format.{IsSuffix}
use maskit_rs.Tests.Inputs.{casing, draws, sha256, digest}

run_safe_label :
    (safe_label casing (codes "phone") ≡ codes "PHONE")
    × (safe_label casing (codes "IP-PRIVATE_2024") ≡ codes "IPPRIVATE202")
    × (safe_label casing [] ≡ codes "TERM")
unfolding safe_label to_ascii_uppercase
run_safe_label = (refl, refl, refl)

run_token_parts :
    (token_suffix casing (codes "{{IP_PRIVATE_zzxkkk}}") ≡ codes "zzxkkk")
    × (token_label (codes "{{IP_PRIVATE_zzxkkk}}") ≡ codes "IP_PRIVATE")
    × (token_suffix casing (codes "plain") ≡ [])
unfolding token_suffix token_label token_body strip_prefix strip_suffix trim rsplit_once
    maskit_rs.Str.to_ascii_lowercase
run_token_parts = (refl, refl, refl)

run_patterns :
    (is_match placeholder_rx (codes "{{PHONE_abc123}}") ≡ true)
    × (is_match placeholder_rx (codes "{{phone_abc123}}") ≡ false)
    × (is_match placeholder_rx (codes "{{PHONE_abc12}}") ≡ false)
    × (is_match braced_placeholder_rx (codes "{{ email_bcdfgh }}") ≡ true)
    × (is_match braced_placeholder_rx (codes "{{TERMfwggbs}}") ≡ false)
    × (is_match escaped_placeholder_rx (codes "\\{\\{TERM_BKRHVH\\}\\}") ≡ true)
    × (is_match loose_placeholder_rx (codes "SECRET_b5a53c") ≡ true)
    × (is_match partial_rx (codes "x{{NAME_ab") ≡ true)
    × (is_match partial_rx (codes "TERM_bcdfgh") ≡ false)
unfolding is_match placeholder_rx braced_placeholder_rx escaped_placeholder_rx loose_placeholder_rx
    partial_rx
run_patterns = (refl, refl, refl, refl, refl, refl, refl, refl, refl)

placeholder_rx-HasToken_example :
    (is_match placeholder_rx (codes "to {{PHONE_kkmmnp}}.") ≡ true)
    ↔ HasToken (codes "to {{PHONE_kkmmnp}}.")
placeholder_rx-HasToken_example = placeholder_rx-HasToken (codes "to {{PHONE_kkmmnp}}.")

-- The first two drawn suffixes are taken.
abbrev busy : Text → Text → Bool
busy t s = contains (rand_suffix draws 0 ∷ rand_suffix draws 1 ∷ []) s

new_token_lem_example :
    (n : ℕ) × (new_token draws casing (codes "phone") busy
      ≡ format_token (safe_label casing (codes "phone")) (rand_suffix draws n))
    × (parse_canonical casing (new_token draws casing (codes "phone") busy)
        ≡ some (safe_label casing (codes "phone"), rand_suffix draws n))
    × (suffix_indexable (rand_suffix draws n) ≡ true)
    × ((busy (new_token draws casing (codes "phone") busy) (rand_suffix draws n) ≡ false)
        ⊎ ((m : ℕ) → m < 20 → Refused draws busy (safe_label casing (codes "phone")) m))
new_token_lem_example = new_token_lem draws casing (codes "phone") busy

-- The candidate of the counter 0 is taken.
abbrev taken_words : List Text
taken_words = derived_suffix sha256 (codes "acme") 0 ∷ []

second_free : contains taken_words (derived_suffix sha256 (codes "acme") 1) ≡ false
unfolding derived_suffix digest maskit_rs.Base.Map.text_eq
second_free = refl

deterministic_suffix_lem_example :
    (n : ℕ) × (deterministic_suffix sha256 (codes "acme") 3 taken_words
      ≡ some (
        derived_suffix sha256 (codes "acme") n,
        derived_suffix sha256 (codes "acme") n ∷ taken_words,
      ))
    × (contains taken_words (derived_suffix sha256 (codes "acme") n) ≡ false)
    × IsSuffix (derived_suffix sha256 (codes "acme") n)
    × (n ≤ 1)
    × ((k : ℕ) → k < n → Used sha256 (codes "acme") taken_words k)
deterministic_suffix_lem_example =
    deterministic_suffix_lem sha256 (codes "acme") taken_words 1 3 second_free (omega arith)
      (omega arith)
