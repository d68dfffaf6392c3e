-- ===== src/Tests/Seed.antt =====
-- Custom words and the warm-up of the store: runs, and the theorem at a concrete input.
use maskit_rs.Str.{to_ascii_lowercase}
use maskit_rs.Str.{to_ascii_uppercase}
use maskit_rs.Placeholder.{token_body}
use maskit_rs.Base.Map.{text_eq}
use maskit_rs.Placeholder.{placeholder_rx}
use maskit_rs.Regex.{is_match}
use maskit_rs.Store.Seed.{admits}
use maskit_rs.Base.{◌≡◌, refl, some, none, [], ◌∷◌, List, Option, codes}
use maskit_rs.Base.Map.{Text, has_key, lookup, insert, remove, text_eq, update}
use maskit_rs.Store.{SessionStore, RecentEntry, new_store, suffix_index_add, suffix_index_del}
use maskit_rs.Store.Seed.{
  seed_words, seed_word, drop_words, stale_words, plant, planted, used_suffixes, custom_suffixes,
  live_suffixes, same_label, unseed, seed_custom_words, collect,
}
use maskit_rs.Placeholder.{
  deterministic_suffix, derive_from, derived_suffix, suffix_indexable, format_token, safe_label,
  token_suffix,
}
use maskit_rs.Str.{
  byte_len, as_bytes, is_whitespace, rsplit_once, show_nat, strip_prefix, strip_suffix, trim,
}
use maskit_rs.Base.{false, ℕ, ◌<◌, ◌⊎◌}
use maskit_rs.Placeholder.{rand_suffix}
use maskit_rs.Placeholder.Generate.{Refused}
use maskit_rs.Store.{token_taken}
use maskit_rs.Store.Recall.{issue}
use maskit_rs.Store.Recall.Fresh.{issue-token_taken}
use maskit_rs.Tests.Inputs.{draws, casing, sha256, digest}

abbrev entry : Text → RecentEntry
entry word = record { token = word; label = codes "TERM"; ts = 3 }

-- Two custom words of an earlier configuration.
abbrev earlier : SessionStore
earlier = record new_store {
  custom_fwd = (codes "foo", codes "{{TERM_bcdfgh}}") ∷ (codes "bar", codes "{{TERM_bcdfgj}}") ∷ [];
  custom_rev =
      (codes "{{TERM_bcdfgh}}", entry (codes "foo"))
      ∷ (codes "{{TERM_bcdfgj}}", entry (codes "bar"))
      ∷ [];
}

-- One of them stays, and one is new.
abbrev words : List (Text × Text)
words = (codes "bar", codes "term") ∷ (codes "baz", codes "corp") ∷ []

abbrev stored : Option SessionStore → SessionStore
stored none = new_store
stored (some st) = st

unfoldable reseeded : SessionStore
reseeded = stored (seed_custom_words casing sha256 3 8 words earlier)

run_reseed : seed_custom_words casing sha256 3 8 words earlier ≡ some reseeded
unfolding reseeded seed_custom_words seed_words seed_word lookup drop_words stale_words plant
    deterministic_suffix derive_from used_suffixes custom_suffixes live_suffixes planted
    suffix_index_add suffix_indexable byte_len insert remove text_eq update derived_suffix
    format_token safe_label token_suffix same_label unseed suffix_index_del as_bytes is_whitespace
    rsplit_once show_nat strip_prefix strip_suffix trim digest token_body to_ascii_uppercase
    to_ascii_lowercase
run_reseed = refl

-- Of two records of a value the first is kept, and none whose value is a token.
run_collect :
    collect casing
      ((codes "{{A_bcdfgh}}", codes "x", codes "A")
        ∷ (codes "{{B_bcdfgj}}", codes "x", codes "B")
        ∷ (codes "{{C_bcdfgk}}", codes "{{A_bcdfgh}}", codes "C")
        ∷ [])
      []
    ≡ (codes "{{A_bcdfgh}}", codes "x", codes "A") ∷ []
unfolding collect admits is_match placeholder_rx text_eq
run_collect = refl

issue-token_taken_example :
    (n : ℕ) × ((issue casing draws (token_taken earlier) 8 (codes "x") (codes "A") earlier).0
      ≡ format_token (safe_label casing (codes "A")) (rand_suffix draws n))
    × (((has_key
              (issue casing draws (token_taken earlier) 8 (codes "x") (codes "A") earlier).0
              earlier.recent_rev
            ≡ false)
          × (has_key
                (issue casing draws (token_taken earlier) 8 (codes "x") (codes "A") earlier).0
                earlier.custom_rev
              ≡ false)
          × (has_key (rand_suffix draws n) earlier.recent_suffix ≡ false))
        ⊎ ((m : ℕ)
            → m < 20
            → Refused draws (token_taken earlier) (safe_label casing (codes "A")) m))
issue-token_taken_example = issue-token_taken casing draws 8 (codes "x") (codes "A") earlier
