-- ===== src/Store/Index.antt =====
-- src/mask/session.rs: the index from suffixes to tokens, and `suffix_real_token`.
use maskit_rs.Base.{
  ◌≡◌, ◌≢◌, refl, Bool, true, false, Option, Text, none, some, if◌then◌else◌, arith, Bool-cases,
  Option-cases, inl, inr, is_empty,
}
use maskit_rs.Base.Map.{text_eq, text_eq_iff, text_eq_refl, lookup, lookup-insert, lookup-remove}
use maskit_rs.Str.{Casing}
use maskit_rs.Placeholder.{token_suffix, token_label, suffix_indexable, safe_label}
use maskit_rs.Store.{
  SessionStore, SuffixIndexValue, token, ambiguous, points_to, suffix_index_add, suffix_index_del,
  suffix_real_token, suffix_captures,
}

-- The index entry of `tok` once `tok` is added.
abbrev pub with_token : Text → Option SuffixIndexValue → SuffixIndexValue
with_token tok none = token tok
with_token tok (some cur) = cur

abbrev pub points_at : Text → Option SuffixIndexValue → Bool
points_at tok none = false
points_at tok (some v) = points_to tok v

module _ (u : Casing) where
  pub lookup-suffix_index_add :
      (tok j : Text) (st : SessionStore)
      → lookup j (suffix_index_add u tok st).recent_suffix ≡ (
          if suffix_indexable (token_suffix u tok)
          then (if text_eq (token_suffix u tok) j
              then some (with_token tok (lookup (token_suffix u tok) st.recent_suffix))
              else lookup j st.recent_suffix)
          else lookup j st.recent_suffix)
  unfolding suffix_index_add
  lookup-suffix_index_add tok j st =
      let sfx = token_suffix u tok in
      ground (arith, text_eq_iff sfx j, lookup-insert sfx j (token tok) st.recent_suffix)

  pub lookup-suffix_index_del :
      (tok j : Text) (st : SessionStore)
      → lookup j (suffix_index_del u tok st).recent_suffix ≡ (
          if is_empty (token_suffix u tok)
          then lookup j st.recent_suffix
          else if points_at tok (lookup (token_suffix u tok) st.recent_suffix)
          then (if text_eq (token_suffix u tok) j then none else lookup j st.recent_suffix)
          else lookup j st.recent_suffix)
  unfolding suffix_index_del
  lookup-suffix_index_del tok j st =
      ground (arith, lookup-remove (token_suffix u tok) j st.recent_suffix)

  -- Every entry of the index stands under its token's own suffix, six consonants.
  abbrev pub IndexOk : SessionStore → Type 0
  IndexOk st =
      (sfx t : Text)
      → lookup sfx st.recent_suffix ≡ some (token t)
      → (token_suffix u t ≡ sfx) × (suffix_indexable sfx ≡ true)

  points_to-token : (tok t : Text) → points_to tok (token t) ≡ true → t ≡ tok
  unfolding points_to
  points_to-token tok t h = (text_eq_iff t tok).0 h

  pub suffix_index_add-IndexOk :
      (tok : Text) (st : SessionStore) → IndexOk st → IndexOk (suffix_index_add u tok st)
  suffix_index_add-IndexOk tok st ok sfx t h = ground (
    arith,
    lookup-suffix_index_add tok sfx st,
    text_eq_iff (token_suffix u tok) sfx,
    Option-cases (lookup (token_suffix u tok) st.recent_suffix),
    ok sfx t,
  )

  pub suffix_index_del-IndexOk :
      (tok : Text) (st : SessionStore) → IndexOk st → IndexOk (suffix_index_del u tok st)
  suffix_index_del-IndexOk tok st ok sfx t h =
      ground (arith, lookup-suffix_index_del tok sfx st, ok sfx t)

  -- Where the suffix can be indexed, the index has the token for it.
  abbrev pub Registered : Text → SessionStore → Type 0
  Registered tok st =
      suffix_indexable (token_suffix u tok) ≡ true
      → lookup (token_suffix u tok) st.recent_suffix ≡ some (token tok)

  -- Where a registration returns, the token is registered; and a registered one stays.
  pub suffix_index_add-Registered :
      (tok : Text) (st : SessionStore)
      → (suffix_index_add u tok st).halted ≡ false
      → Registered tok (suffix_index_add u tok st)
  unfolding suffix_index_add points_to
  suffix_index_add-Registered tok st h indexable =
      elim (Option-cases (lookup (token_suffix u tok) st.recent_suffix)) [
        | inl free ↦ ground (
          arith,
          lookup-insert (token_suffix u tok) (token_suffix u tok) (token tok) st.recent_suffix,
          text_eq_refl (token_suffix u tok),
        )
        | inr (token t, found) ↦ ground (arith, text_eq_iff t tok)
        | inr (ambiguous, found) ↦ absurd (ground arith)
      ]

  pub add-Registered :
      (tok : Text) (st : SessionStore) → Registered tok st → suffix_index_add u tok st ≡ st
  unfolding suffix_index_add points_to
  add-Registered tok st r = elim (Bool-cases (suffix_indexable (token_suffix u tok))) [
    | inl indexable ↦ rw (indexable, r indexable, text_eq_refl tok) refl
    | inr bare ↦ rw bare refl
  ]

-- Only the index changes, and a registration may not return.
pub record SameTables (st st' : SessionStore) : Type 0 where
  pub sessions : st'.sessions ≡ st.sessions
  pub recent_fwd : st'.recent_fwd ≡ st.recent_fwd
  pub recent_rev : st'.recent_rev ≡ st.recent_rev
  pub custom_fwd : st'.custom_fwd ≡ st.custom_fwd
  pub custom_rev : st'.custom_rev ≡ st.custom_rev
  pub ttl_secs : st'.ttl_secs ≡ st.ttl_secs
  pub lookup_hook : st'.lookup_hook ≡ st.lookup_hook

module _ (u : Casing) (tok : Text) (st : SessionStore) where
  pub suffix_index_add-SameTables : SameTables st (suffix_index_add u tok st)
  unfolding suffix_index_add
  suffix_index_add-SameTables = ground arith

  pub suffix_index_del-SameTables : SameTables st (suffix_index_del u tok st)
  unfolding suffix_index_del
  suffix_index_del-SameTables = ground arith

  -- Where a rewritten token is given back by its suffix: the index names the answer under the
  -- suffix that the pattern captured, which is the answer's own; the labels agree once normalised;
  -- and the answer is another token than the one asked for.
  pub suffix_real_token_lem :
      {real : Text}
      → IndexOk u st
      → suffix_real_token u tok st ≡ some real
      → (label_raw sfx : Text) × (suffix_captures u tok ≡ some (label_raw, sfx))
        × (lookup sfx st.recent_suffix ≡ some (token real))
        × (token_suffix u real ≡ sfx)
        × (safe_label u label_raw ≡ safe_label u (token_label real))
        × (real ≢ tok)
  unfolding suffix_real_token
  suffix_real_token_lem {real} ok h = elim (Option-cases (suffix_captures u tok)) [
    | inl e ↦ absurd (ground arith)
    | inr ((label_raw, sfx), e) ↦ elim (Option-cases (lookup sfx st.recent_suffix)) [
      | inl f ↦ absurd (ground arith)
      | inr (ambiguous, f) ↦ absurd (ground arith)
      | inr (token x, f) ↦
          let same : x ≡ real = ground arith in
          (
            label_raw,
            sfx,
            e,
            ground arith,
            ground (arith, ok sfx x f),
            ground (arith, text_eq_iff (safe_label u label_raw) (safe_label u (token_label x))),
            ground (arith, text_eq_iff x tok),
          )
    ]
  ]
