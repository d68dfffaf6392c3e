-- ===== src/Store/Seed.antt =====
-- src/mask/session.rs, `seed_custom_words` and `warmup_from_events`: the mappings that a start or a
-- change of the configuration puts into the store.
pub mod Words
use mathlib.Core.List.{reverse}
use maskit_rs.Base.{
  ℕ, Bool, true, false, not, ◌||◌, Option, none, some, List, [], ◌∷◌, ◌++◌, map, Text, contains,
  is_empty, if◌then◌else◌, ◌>>=◌, length,
}
use maskit_rs.Base.Map.{text_eq, lookup, insert, remove, update}
use maskit_rs.Str.{Casing}
use maskit_rs.Regex.{is_match}
use maskit_rs.Placeholder.{
  Sha256, safe_label, token_suffix, format_token, deterministic_suffix, placeholder_rx,
}
use maskit_rs.Store.{
  SessionStore, RecentEntry, SuffixIndexValue, token, ambiguous, suffix_index_add, suffix_index_del,
}
use maskit_rs.Store.Recall.{register}
use maskit_rs.Store.Prune.{prune_recent}

-- The words that the configuration no longer has.
unfoldable pub stale_words : List Text → List (Text × Text) → List Text
stale_words active [] = []
stale_words active ((w, _) ∷ m) =
    let rest = stale_words active m in if contains active w then rest else w ∷ rest

module _ (u : Casing) where
  -- A word and its token leave the permanent tables.
  unfoldable pub unseed : Text → Text → SessionStore → SessionStore
  unseed word tok st =
      suffix_index_del u tok (record st {
        custom_fwd = remove word st.custom_fwd;
        custom_rev = remove tok st.custom_rev;
      })

  unfoldable pub drop_words : List Text → SessionStore → SessionStore
  drop_words [] st = st
  drop_words (w ∷ ws) st =
      drop_words ws (elim (lookup w st.custom_fwd) [ none ↦ st | some tok ↦ unseed w tok st ])

  abbrev pub nonempty_suffix : Text → List Text
  nonempty_suffix tok = let sfx = token_suffix u tok in if is_empty sfx then [] else sfx ∷ []

  unfoldable pub custom_suffixes : List (Text × RecentEntry) → List Text
  custom_suffixes [] = []
  custom_suffixes ((tok, _) ∷ m) = nonempty_suffix tok ++ custom_suffixes m

  unfoldable pub live_suffixes : List (Text × SuffixIndexValue) → List Text
  live_suffixes [] = []
  live_suffixes ((_, token tok) ∷ m) = nonempty_suffix tok ++ live_suffixes m
  live_suffixes ((_, ambiguous) ∷ m) = live_suffixes m

  unfoldable pub used_suffixes : SessionStore → List Text
  used_suffixes st = custom_suffixes st.custom_rev ++ live_suffixes st.recent_suffix

  module _ (h : Sha256) (fuel now : ℕ) where
    -- A word and its token enter the permanent tables.
    unfoldable pub planted : Text → Text → Text → SessionStore → SessionStore
    planted word label suffix st =
        let tok = format_token (safe_label u label) suffix in
        suffix_index_add u tok (record st {
          custom_fwd = insert word tok st.custom_fwd;
          custom_rev = insert tok (record { token = word; label = label; ts = now }) st.custom_rev;
        })

    -- A new token for a word, derived from the word; `none` where the fuel runs out.
    unfoldable pub plant :
        Text → Text → List Text → SessionStore → Option (List Text × SessionStore)
    plant word label used st = do
      (suffix, used') ← deterministic_suffix h word fuel used
      some (used', planted word label suffix st)

    abbrev pub relabel : Text → RecentEntry → RecentEntry
    relabel label r = record r { label = label; ts = now }

    -- `self.custom_rev.get(&tok).map(|r| safe_label(&r.label) == lab).unwrap_or(false)`
    unfoldable pub same_label : Text → Text → SessionStore → Bool
    same_label tok label st = elim (lookup tok st.custom_rev) [
      | none ↦ false
      | some r ↦ text_eq (safe_label u r.label) (safe_label u label)
    ]

    unfoldable pub seed_word :
        Text → Text → List Text → SessionStore → Option (List Text × SessionStore)
    seed_word word label used st = elim (lookup word st.custom_fwd) [
      | none ↦ plant word label used st
      | some tok ↦
          if same_label tok label st
          then some (used, record st { custom_rev = update tok (relabel label) st.custom_rev })
          else plant word label used (unseed word tok st)
    ]

    unfoldable pub seed_words : List (Text × Text) → List Text → SessionStore → Option SessionStore
    seed_words [] used st = some st
    seed_words ((word, label) ∷ words) used st = do
      (used', st') ← seed_word word label used st
      seed_words words used' st'

    unfoldable pub seed_custom_words : List (Text × Text) → SessionStore → Option SessionStore
    seed_custom_words words st =
        let kept = drop_words (stale_words (map (λ w. w.0) words) st.custom_fwd) st in
        seed_words words (used_suffixes kept) kept

  -- A record that is written: with a token, a value that holds none, and of a value not seen yet.
  unfoldable pub admits : Text → Text → List Text → Bool
  admits tok orig seen =
      if is_empty tok || is_empty orig
      then false
      else if is_match placeholder_rx orig
      then false
      else not (contains seen orig)

  unfoldable pub collect : List (Text × Text × Text) → List Text → List (Text × Text × Text)
  collect [] seen = []
  collect ((tok, orig, label) ∷ records) seen =
      let new = admits tok orig seen in
      let rest = collect records (if new then orig ∷ seen else seen) in
      if new then (tok, orig, label) ∷ rest else rest

  unfoldable pub write_back : ℕ → List (Text × Text × Text) → SessionStore → SessionStore
  write_back now [] st = st
  write_back now ((tok, orig, label) ∷ records) st =
      write_back now records (suffix_index_add u tok (register u orig tok label now st))

  unfoldable pub warmup_from_events :
      ℕ → List (Text × Text × Text) → SessionStore → ℕ × SessionStore
  warmup_from_events now records st =
      let collected = collect records [] in
      (length collected, prune_recent u now (write_back now (reverse collected) st))
