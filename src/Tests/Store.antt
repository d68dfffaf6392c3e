-- ===== src/Tests/Store.antt =====
-- The session store: the theorems at concrete inputs.
use maskit_rs.Store.Recall.{recall_recent}
use maskit_rs.Store.{points_to}
use maskit_rs.Store.{touch_recent}
use maskit_rs.Store.{is_custom_word_token}
use maskit_rs.Store.{remove_all}
use maskit_rs.Store.{expired_keys}
use maskit_rs.Store.{set_ttl}
use maskit_rs.Store.{db_lookup}
use maskit_rs.Store.{set_lookup_hook}
use maskit_rs.Placeholder.{parse_canonical}
use maskit_rs.Placeholder.{partial_rx}
use maskit_rs.Placeholder.{loose_placeholder_rx}
use maskit_rs.Placeholder.{escaped_placeholder_rx}
use maskit_rs.Placeholder.{any_braced_suffix_rx}
use maskit_rs.Placeholder.{braced_placeholder_rx}
use maskit_rs.Placeholder.{deterministic_suffix}
use maskit_rs.Placeholder.{derive_from}
use maskit_rs.Placeholder.{derived_suffix}
use maskit_rs.Placeholder.{new_token}
use maskit_rs.Placeholder.{new_token_from}
use maskit_rs.Placeholder.{rand_suffix}
use maskit_rs.Placeholder.{rand_from}
use maskit_rs.Placeholder.{canonicalize}
use maskit_rs.Placeholder.{token_body}
use maskit_rs.Placeholder.{is_token_char}
use maskit_rs.Regex.{find}
use maskit_rs.Regex.{matches_here}
use maskit_rs.Regex.{match_here}
use maskit_rs.Regex.{ends}
use maskit_rs.Regex.{many_ends}
use maskit_rs.Regex.{rep_ends}
use maskit_rs.Regex.{fold_case}
use maskit_rs.Str.{slice}
use maskit_rs.Str.{parse_unsigned}
use maskit_rs.Str.{parse_digits}
use maskit_rs.Str.{digits_value}
use maskit_rs.Str.{show_nat}
use maskit_rs.Str.{show_from}
use maskit_rs.Str.{split}
use maskit_rs.Str.{split_from}
use maskit_rs.Str.{rsplit_once}
use maskit_rs.Str.{split_once}
use maskit_rs.Str.{contains_str}
use maskit_rs.Str.{ends_with}
use maskit_rs.Str.{strip_suffix}
use maskit_rs.Str.{starts_with}
use maskit_rs.Str.{strip_prefix}
use maskit_rs.Str.{trim}
use maskit_rs.Str.{trim_end_matches}
use maskit_rs.Str.{trim_start_matches}
use maskit_rs.Str.{is_whitespace}
use maskit_rs.Str.{to_digit}
use maskit_rs.Str.{to_ascii_lowercase}
use maskit_rs.Str.{to_ascii_uppercase}
use maskit_rs.Str.{split_at}
use maskit_rs.Str.{byte_len}
use maskit_rs.Str.{as_bytes}
use maskit_rs.Str.{utf8}
use maskit_rs.Base.{
  ◌≡◌, ◌≢◌, ◌≤◌, ◌<◌, ◌-◌, ℕ, ap, sym, refl, Bool, true, false, [], ◌∷◌, Text, codes, none, some,
  arith, length, ◌⊎◌,
}
use maskit_rs.Base.Map.{lookup, insert, remove, text_eq, Distinct, insert-Distinct}
use maskit_rs.Regex.{is_match}
use maskit_rs.Placeholder.{
  placeholder_rx, format_token, token_suffix, token_label, suffix_indexable, safe_label,
}
use maskit_rs.Store.{
  SessionStore, Session, RecentEntry, token, ambiguous, new_store, empty_session, suffix_index_add,
  suffix_index_del, suffix_real_token, suffix_captures, new_session, sweep, is_custom_word_orig,
  touch, drop_session, recent_max, token_taken,
}
use maskit_rs.Store.Index.{IndexOk, suffix_real_token_lem, suffix_index_add-IndexOk}
use maskit_rs.Store.Sessions.{lookup-sweep}
use maskit_rs.Store.Prune.{prune_recent}
use maskit_rs.Store.Prune.Bound.{ordinary, prune_recent-bound}
use maskit_rs.Store.Prune.Kept.{lookup-prune_recent}
use maskit_rs.Store.Recall.{recall_token, issue}
use maskit_rs.Store.{db_lookup}
use maskit_rs.Store.Recall.Returns.{Returns}
use maskit_rs.Store.Recall.Fresh.{issue-returns}
use maskit_rs.Placeholder.Generate.{Refused}
use maskit_rs.Store.Recall.Live.{Live, Paired, recall_token-Live}
use maskit_rs.Store.Recall.Keeps.{Keeps, recall_token-Keeps}
use maskit_rs.Store.Recall.Stable.{
  Again, recall_token-stable, lookup_token-recall_token, lookup_token-HasToken,
}
use maskit_rs.Store.Resolve.{lookup_token, session_rev}
use maskit_rs.Placeholder.Strict.{HasToken}
use maskit_rs.Tests.Inputs.{casing, draws}

abbrev phone : Text
phone = codes "13812345678"

abbrev free : Text → Text → Bool
free t s = false

abbrev token_a : Text
token_a = codes "{{PHONE_kkmmnp}}"

-- One number with its token, as of the time 50.
abbrev one_entry : SessionStore
one_entry = record new_store {
  recent_fwd = (phone, record { token = token_a; label = codes "PHONE"; ts = 50 }) ∷ [];
  recent_rev = (token_a, record { token = phone; label = codes "PHONE"; ts = 50 }) ∷ [];
  recent_suffix = (codes "kkmmnp", token token_a) ∷ [];
}

one_entry-Paired : Paired phone one_entry
unfolding lookup text_eq
one_entry-Paired e h =
    let named : token_a ≡ e.token = ground arith in
    (
      record { token = phone; label = codes "PHONE"; ts = 50 },
      ap (λ t. lookup t one_entry.recent_rev) (sym named),
      refl,
    )

phone_plain : is_match placeholder_rx phone ≡ false
unfolding is_match placeholder_rx
phone_plain = refl

no_custom : lookup phone one_entry.custom_fwd ≡ none
unfolding lookup
no_custom = refl

-- the token and the state behind a recall, at the time 100
abbrev recalled : Text × Bool × SessionStore
recalled = recall_token casing draws free 100 phone (codes "PHONE") one_entry

no_session : session_rev (codes "s1") 500 recalled.0 one_entry ≡ none
unfolding session_rev lookup
no_session = refl

recalled_returns : recalled.2.halted ≡ false
unfolding byte_len trim ends_with rsplit_once text_eq lookup fold_case is_match token_body
    suffix_indexable token_suffix placeholder_rx is_custom_word_orig touch_recent points_to
    suffix_index_add recall_recent recall_token
recalled_returns = refl

lookup_token-recall_token_example :
    (lookup_token (codes "s1") 500 recalled.0 recalled.2).0 ≡ some phone
lookup_token-recall_token_example =
    lookup_token-recall_token casing draws free 100 500 (codes "s1") phone (codes "PHONE") one_entry
      one_entry-Paired phone_plain no_custom (omega arith) (omega arith) no_session

recall_token-stable_example :
    Again recalled.0 (recall_token casing draws free 500 phone (codes "TEL") recalled.2)
recall_token-stable_example =
    recall_token-stable casing draws draws free free 100 500 phone (codes "PHONE") (codes "TEL")
      one_entry phone_plain no_custom (omega arith) recalled_returns (omega arith)

recall_token-Live_example : Live 100 phone recalled.0 recalled.2
recall_token-Live_example =
    recall_token-Live casing draws free 100 phone (codes "PHONE") one_entry one_entry-Paired
      phone_plain no_custom (omega arith)

recall_token-Keeps_example : Keeps one_entry recalled.2
recall_token-Keeps_example =
    recall_token-Keeps casing draws free 100 phone (codes "PHONE") one_entry

phone_back : (lookup_token (codes "s1") 500 recalled.0 recalled.2).0 ≡ some phone
phone_back =
    lookup_token-recall_token casing draws free 100 500 (codes "s1") phone (codes "PHONE") one_entry
      one_entry-Paired phone_plain no_custom (omega arith) (omega arith) no_session

lookup_token-HasToken_example : ¬ HasToken phone
lookup_token-HasToken_example =
    lookup_token-HasToken (codes "s1") 500 recalled.0 recalled.2 {o = phone} phone_back

abbrev token_b : Text
token_b = codes "{{EMAIL_kkmmnp}}"

abbrev one : SessionStore
one = suffix_index_add casing token_a new_store

abbrev both : SessionStore
both = suffix_index_add casing token_b one

suffixes : Unit {0}
unfolding token_suffix maskit_rs.Placeholder.token_body maskit_rs.Str.strip_prefix
    maskit_rs.Str.strip_suffix maskit_rs.Str.trim maskit_rs.Str.rsplit_once maskit_rs.Str.byte_len
    maskit_rs.Str.to_ascii_lowercase suffix_indexable maskit_rs.Placeholder.is_token_char
suffixes = tt

-- Two tokens of one suffix: the second registration does not return.
both_halted : both.halted ≡ true
unfolding suffixes suffix_index_add lookup insert text_eq maskit_rs.Store.points_to
both_halted = refl

new_store-IndexOk : IndexOk casing new_store
unfolding lookup
new_store-IndexOk sfx t h = cc

-- A model wrote the label in lower case and put spaces in.
abbrev rewritten : Text
rewritten = codes "{{ phone_KKMMNP }}"

resolved : suffix_real_token casing rewritten one ≡ some token_a
unfolding suffixes suffix_real_token suffix_captures suffix_index_add maskit_rs.Regex.match_here
    maskit_rs.Placeholder.any_braced_suffix_rx lookup insert remove text_eq safe_label token_label
    maskit_rs.Store.points_to maskit_rs.Str.to_ascii_uppercase
resolved = refl

suffix_real_token_lem_example :
    (label_raw sfx : Text) × (suffix_captures casing rewritten ≡ some (label_raw, sfx))
    × (lookup sfx one.recent_suffix ≡ some (token token_a))
    × (token_suffix casing token_a ≡ sfx)
    × (safe_label casing label_raw ≡ safe_label casing (token_label token_a))
    × (token_a ≢ rewritten)
suffix_real_token_lem_example =
    suffix_real_token_lem casing rewritten one {real = token_a}
      (suffix_index_add-IndexOk casing token_a new_store new_store-IndexOk) resolved

prune_recent-bound_example :
    length (
      ordinary (prune_recent casing 500 recalled.2) (prune_recent casing 500 recalled.2).recent_fwd)
    ≤ recent_max
prune_recent-bound_example = prune_recent-bound casing 500 recalled.2

-- One entry of a phone number, and one of a custom word, as of the time 0.
abbrev two_entries : SessionStore
two_entries = record new_store {
  recent_fwd =
      (phone, record { token = token_a; label = codes "PHONE"; ts = 0 })
      ∷ (codes "acme", record { token = token_b; label = codes "EMAIL"; ts = 0 })
      ∷ [];
  custom_fwd = (codes "acme", token_b) ∷ [];
  custom_rev = (token_b, record { token = codes "acme"; label = codes "EMAIL"; ts = 0 }) ∷ [];
}

two_entries-Distinct : Distinct two_entries.recent_fwd
unfolding lookup text_eq
two_entries-Distinct = (refl, (refl, tt))

lookup-prune_recent_example :
    (is_custom_word_orig (codes "acme") two_entries ≡ true
      → lookup (codes "acme") (prune_recent casing 100000 two_entries).recent_fwd
        ≡ lookup (codes "acme") two_entries.recent_fwd)
    × ((e : RecentEntry)
        → lookup (codes "acme") (prune_recent casing 100000 two_entries).recent_fwd ≡ some e
        → (lookup (codes "acme") two_entries.recent_fwd ≡ some e)
          × ((is_custom_word_orig (codes "acme") two_entries ≡ true)
              ⊎ (100000 - e.ts ≤ two_entries.ttl_secs)))
lookup-prune_recent_example =
    lookup-prune_recent casing 100000 (codes "acme") two_entries two_entries-Distinct

abbrev with_session : SessionStore
with_session = new_session (codes "s1") 100 new_store

with_session-Distinct : Distinct with_session.sessions
unfolding new_session
with_session-Distinct = insert-Distinct (codes "s1") (empty_session 100) [] tt

lookup-sweep_example :
    (lookup (codes "s1") with_session.sessions ≡ none
      → lookup (codes "s1") (sweep 3600 5000 with_session).sessions ≡ none)
    × ((s : Session)
        → lookup (codes "s1") with_session.sessions ≡ some s
        → (s.inflight ≡ false
            → 3600 < 5000 - s.ts
            → lookup (codes "s1") (sweep 3600 5000 with_session).sessions ≡ none)
          × (s.inflight ≡ true
              → lookup (codes "s1") (sweep 3600 5000 with_session).sessions ≡ some s)
          × (5000 - s.ts ≤ 3600
              → lookup (codes "s1") (sweep 3600 5000 with_session).sessions ≡ some s))
lookup-sweep_example = lookup-sweep 3600 5000 (codes "s1") with_session with_session-Distinct

issue-returns_example :
    ((issue casing draws
        (token_taken one_entry)
        100
        (codes "x@y.z")
        (codes "EMAIL")
        one_entry).2.halted
      ≡ false)
    ⊎ ((m : ℕ)
        → m < 20
        → Refused draws (token_taken one_entry) (safe_label casing (codes "EMAIL")) m)
issue-returns_example =
    issue-returns casing draws 100 (codes "x@y.z") (codes "EMAIL") one_entry refl (omega arith)
