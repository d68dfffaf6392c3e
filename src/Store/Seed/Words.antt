-- ===== src/Store/Seed/Words.antt =====
-- src/mask/session.rs, `seed_custom_words`: the permanent mappings.
use maskit_rs.Base.{
  ℕ, ◌≡◌, ◌∙◌, sym, ap, refl, inl, inr, Bool, true, false, not, ◌&&◌, ◌||◌, none, some,
  Option-cases, Bool-cases, List, [], ◌∷◌, map, Text, contains, arith,
}
use maskit_rs.Base.Map.{
  text_eq, text_eq_iff, lookup, insert, remove, has_key, lookup-insert, lookup-remove,
}
use maskit_rs.Str.{Casing}
use maskit_rs.Placeholder.{Sha256, deterministic_suffix}
use maskit_rs.Store.{SessionStore, suffix_index_add, suffix_index_del}
use maskit_rs.Store.Seed.{
  stale_words, unseed, drop_words, used_suffixes, planted, plant, seed_word, seed_words,
  seed_custom_words, same_label,
}

abbrev mapped : Text → SessionStore → Bool
mapped w st = has_key w st.custom_fwd

has_key-remove :
    (k j : Text) (m : List (Text × Text))
    → has_key j (remove k m) ≡ (not (text_eq k j) && has_key j m)
unfolding has_key
has_key-remove k j m = ground (arith, lookup-remove k j m)

has_key-insert :
    (k j t : Text) (m : List (Text × Text))
    → has_key j (insert k t m) ≡ (text_eq k j || has_key j m)
unfolding has_key
has_key-insert k j t m = ground (arith, lookup-insert k j t m)

-- A word without a mapping is no word that has one.
has_key_absent :
    (k j : Text) (m : List (Text × Text))
    → lookup k m ≡ none
    → (not (text_eq k j) && has_key j m) ≡ has_key j m
unfolding has_key
has_key_absent k j m free = elim (Bool-cases (text_eq k j)) [
  | inl e ↦ rw e (sym (has_none (sym (ap (λ x. lookup x m) ((text_eq_iff k j).0 e)) ∙ free)))
  | inr e ↦ rw e refl
]
  where
    has_none : lookup j m ≡ none → has_key j m ≡ false
    has_none h = ground arith

has_key_present :
    (k j t : Text) (m : List (Text × Text))
    → lookup k m ≡ some t
    → (text_eq k j || has_key j m) ≡ has_key j m
unfolding has_key
has_key_present k j t m found = elim (Bool-cases (text_eq k j)) [
  | inl e ↦ rw e (sym (has_some (sym (ap (λ x. lookup x m) ((text_eq_iff k j).0 e)) ∙ found)))
  | inr e ↦ rw e refl
]
  where
    has_some : lookup j m ≡ some t → has_key j m ≡ true
    has_some h = ground arith

module _ (u : Casing) where
  add-custom_fwd :
      (tok : Text) (st : SessionStore) → (suffix_index_add u tok st).custom_fwd ≡ st.custom_fwd
  unfolding suffix_index_add
  add-custom_fwd tok st = ground arith

  del-custom_fwd :
      (tok : Text) (st : SessionStore) → (suffix_index_del u tok st).custom_fwd ≡ st.custom_fwd
  unfolding suffix_index_del
  del-custom_fwd tok st = ground arith

  has_key-unseed :
      (v tok w : Text) (st : SessionStore)
      → mapped w (unseed u v tok st) ≡ (not (text_eq v w) && mapped w st)
  unfolding unseed
  has_key-unseed v tok w st =
      ap (has_key w) (del-custom_fwd tok _) ∙ has_key-remove v w st.custom_fwd

  has_key-drop_words :
      (vs : List Text) (w : Text) (st : SessionStore)
      → mapped w (drop_words u vs st) ≡ (not (contains vs w) && mapped w st)
  unfolding drop_words
  has_key-drop_words [] w st = refl
  has_key-drop_words (v ∷ vs) w st = elim (Option-cases (lookup v st.custom_fwd)) [
    | inl e ↦
        rw (e, drop_words)
          (ground (arith, has_key-drop_words vs w st, has_key_absent v w st.custom_fwd e))
    | inr (tok, e) ↦
        rw (e, drop_words)
          (ground (arith, has_key-drop_words vs w (unseed u v tok st), has_key-unseed v tok w st))
  ]

stale_words-active :
    (active : List Text) (m : List (Text × Text)) (w : Text)
    → contains active w ≡ true
    → contains (stale_words active m) w ≡ false
unfolding stale_words
stale_words-active active [] w h = refl
stale_words-active active ((k, v) ∷ m) w h = elim (Bool-cases (text_eq k w)) [
  | inl e ↦ rw (ap (contains active) ((text_eq_iff k w).0 e) ∙ h) (stale_words-active active m w h)
  | inr e ↦ ground (arith, stale_words-active active m w)
]

stale_words-inactive :
    (active : List Text) (m : List (Text × Text)) (w : Text)
    → contains active w ≡ false
    → has_key w m ≡ true
    → contains (stale_words active m) w ≡ true
unfolding stale_words has_key
stale_words-inactive active [] w h k = cc
stale_words-inactive active ((j, v) ∷ m) w h k = elim (Bool-cases (text_eq j w)) [
  | inl e ↦ rw (ap (contains active) ((text_eq_iff j w).0 e) ∙ h) (ground arith)
  | inr e ↦ ground (arith, stale_words-inactive active m w)
]

-- What is left of the mapped words is what the configuration names.
drop_inactive :
    (u : Casing) (active : List Text) (w : Text) (st : SessionStore)
    → mapped w (drop_words u (stale_words active st.custom_fwd) st)
      ≡ (contains active w && mapped w st)
drop_inactive u active w st = elim (Bool-cases (contains active w)) [
  | inl e ↦ ground (
    arith,
    has_key-drop_words u (stale_words active st.custom_fwd) w st,
    stale_words-active active st.custom_fwd w,
  )
  | inr e ↦ ground (
    arith,
    has_key-drop_words u (stale_words active st.custom_fwd) w st,
    stale_words-inactive active st.custom_fwd w,
  )
]

module _ (u : Casing) (h : Sha256) (fuel now : ℕ) where
  has_key-planted :
      (word label suffix : Text) (st : SessionStore) (w : Text)
      → mapped w (planted u h fuel now word label suffix st) ≡ (text_eq word w || mapped w st)
  unfolding planted
  has_key-planted word label suffix st w =
      ap (has_key w) (add-custom_fwd u _ _) ∙ has_key-insert word w _ st.custom_fwd

  has_key-plant :
      (word label : Text) (used used' : List Text) (st st' : SessionStore) (w : Text)
      → plant u h fuel now word label used st ≡ some (used', st')
      → mapped w st' ≡ (text_eq word w || mapped w st)
  unfolding plant
  has_key-plant word label used used' st st' w e =
      elim (Option-cases (deterministic_suffix h word fuel used)) [
        | inl n ↦ absurd (ground arith)
        | inr ((suffix, more), n) ↦ ground (arith, has_key-planted word label suffix st w)
      ]

  has_key-seed_word :
      (word label : Text) (used used' : List Text) (st st' : SessionStore) (w : Text)
      → seed_word u h fuel now word label used st ≡ some (used', st')
      → mapped w st' ≡ (text_eq word w || mapped w st)
  unfolding seed_word
  has_key-seed_word word label used used' st st' w e =
      elim (Option-cases (lookup word st.custom_fwd)) [
        | inl n ↦ has_key-plant word label used used' st st' w (ground arith)
        | inr (tok, n) ↦ elim (Bool-cases (same_label u h fuel now tok label st)) [
          | inl same ↦ ground (arith, has_key_present word w tok st.custom_fwd n)
          | inr other ↦ ground (
            arith,
            has_key-plant word label used used' (unseed u word tok st) st' w (ground arith),
            has_key-unseed u word tok w st,
          )
        ]
      ]

  has_key-seed_words :
      (words : List (Text × Text)) (used : List Text) (st st' : SessionStore) (w : Text)
      → seed_words u h fuel now words used st ≡ some st'
      → mapped w st' ≡ (contains (map (λ p. p.0) words) w || mapped w st)
  unfolding seed_words
  has_key-seed_words [] used st st' w e = ground arith
  has_key-seed_words ((word, label) ∷ words) used st st' w e =
      elim (Option-cases (seed_word u h fuel now word label used st)) [
        | inl n ↦ absurd (ground arith)
        | inr ((used', st1), n) ↦ ground (
          arith,
          has_key-seed_word word label used used' st st1 w n,
          has_key-seed_words words used' st1 st' w (ground arith),
        )
      ]

  -- After a seeding exactly the listed words have a permanent mapping.
  pub has_key-seed_custom_words :
      (words : List (Text × Text)) (st st' : SessionStore) (w : Text)
      → seed_custom_words u h fuel now words st ≡ some st'
      → has_key w st'.custom_fwd ≡ contains (map (λ p. p.0) words) w
  unfolding seed_custom_words
  has_key-seed_custom_words words st st' w e =
      let active = map (λ p. p.0) words in
      let kept = drop_words u (stale_words active st.custom_fwd) st in
      ground (
        arith,
        has_key-seed_words words (used_suffixes u kept) kept st' w e,
        drop_inactive u active w st,
      )
