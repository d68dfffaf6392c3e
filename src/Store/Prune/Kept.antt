-- ===== src/Store/Prune/Kept.antt =====
-- src/mask/session.rs, `prune_recent`: the entries that are left.
use maskit_rs.Base.{
  ◌≡◌, ◌≤◌, ◌-◌, ℕ, refl, ◌∙◌, ap, Bool, true, false, List, ◌∷◌, [], Option, Text, none, some,
  if◌then◌else◌, arith, contains, Bool-cases, inl, inr, ◌⊎◌, not, ltb, length, take, all, all-take,
  Option-cases,
}
use maskit_rs.Base.Map.{text_eq, text_eq_iff, lookup, lookup-remove, Distinct}
use maskit_rs.Str.{Casing}
use maskit_rs.Store.{SessionStore, RecentEntry, recent_max, is_custom_word_orig}
use maskit_rs.Store.Sessions.{lookup-remove_all}
use maskit_rs.Store.Prune.{
  Candidate, stale, stale_keys, evictable, place, sort_by_ts, forget, forget_keys, drop_stale,
  drop_oldest, prune_recent,
}
use maskit_rs.Store.Prune.Bound.{keys, forget-recent_fwd, forget_candidates-recent_fwd}
use maskit_rs.Store.Recall.Keeps.{Keeps, forget_keys-Keeps}

lookup-forget_keys :
    (u : Casing) (j : Text) (ks : List Text) (st : SessionStore)
    → lookup j (forget_keys u ks st).recent_fwd
      ≡ (if contains ks j then none else lookup j st.recent_fwd)
unfolding forget_keys
lookup-forget_keys u j [] st = refl
lookup-forget_keys u j (k ∷ ks) st = elim (Option-cases (lookup k st.recent_fwd)) [
  | inl e ↦ rw (e, forget_keys) (ground (arith, lookup-forget_keys u j ks st, text_eq_iff k j))
  | inr (x, e) ↦
      rw (e, forget_keys)
        (ground (
          arith,
          lookup-forget_keys u j ks (forget u k x.token st),
          forget-recent_fwd u k x.token st,
          lookup-remove k j st.recent_fwd,
        ))
]

-- The stale test of the entry under a key.
abbrev pub goes : ℕ → SessionStore → Text → Option RecentEntry → Bool
goes now st j none = false
goes now st j (some e) = stale now st j e

stale_keys_absent :
    (now : ℕ) (st : SessionStore) (j : Text) (m : List (Text × RecentEntry))
    → lookup j m ≡ none
    → contains (stale_keys now st m) j ≡ false
unfolding lookup stale_keys
stale_keys_absent now st j [] h = refl
stale_keys_absent now st j ((k, e) ∷ m) h =
    ground (arith, stale_keys_absent now st j m, Bool-cases (stale now st k e))

contains-stale_keys :
    (now : ℕ) (st : SessionStore) (j : Text) (m : List (Text × RecentEntry))
    → Distinct m
    → contains (stale_keys now st m) j ≡ goes now st j (lookup j m)
unfolding lookup stale_keys
contains-stale_keys now st j [] d = refl
contains-stale_keys now st j ((k, e) ∷ m) d = elim (Bool-cases (text_eq k j)) [
  | inl q ↦
      let same : k ≡ j = (text_eq_iff k j).0 q in
      let gone : lookup j m ≡ none = ground (arith, d.0) in
      elim (Bool-cases (stale now st k e)) [
        | inl x ↦ rw (q, x) (ground arith)
        | inr x ↦ rw (q, x) (ground (arith, stale_keys_absent now st j m gone))
      ]
  | inr q ↦ elim (Bool-cases (stale now st k e)) [
    | inl x ↦ rw (q, x) (ground (arith, q, contains-stale_keys now st j m d.1))
    | inr x ↦ rw (q, x) (contains-stale_keys now st j m d.1)
  ]
]

lookup-drop_stale :
    (u : Casing) (now : ℕ) (j : Text) (st : SessionStore)
    → Distinct st.recent_fwd
    → lookup j (drop_stale u now st).recent_fwd
      ≡ (if goes now st j (lookup j st.recent_fwd) then none else lookup j st.recent_fwd)
unfolding drop_stale
lookup-drop_stale u now j st d =
    lookup-forget_keys u j (stale_keys now st st.recent_fwd) st
    ∙ ap (λ b. if b then none else lookup j st.recent_fwd)
        (contains-stale_keys now st j st.recent_fwd d)

-- The candidates are no custom words, and sorting them adds none.
abbrev ordinary : SessionStore → Candidate → Bool
ordinary st c = not (is_custom_word_orig c.0 st)

all-evictable :
    (st : SessionStore) (m : List (Text × RecentEntry)) → all (ordinary st) (evictable st m) ≡ true
unfolding evictable
all-evictable st [] = refl
all-evictable st ((k, e) ∷ m) = ground (arith, all-evictable st m)

all-place :
    (p : Candidate → Bool) (c : Candidate) (cs : List Candidate)
    → p c ≡ true
    → all p cs ≡ true
    → all p (place c cs) ≡ true
unfolding place
all-place p c [] h k = ground arith
all-place p c (d ∷ ds) h k = ground (arith, all-place p c ds)

all-sort_by_ts :
    (p : Candidate → Bool) (cs : List Candidate) → all p cs ≡ true → all p (sort_by_ts cs) ≡ true
unfolding sort_by_ts
all-sort_by_ts p [] h = refl
all-sort_by_ts p (c ∷ cs) h =
    all-place p c (sort_by_ts cs) (ground arith) (all-sort_by_ts p cs (ground arith))

contains-ordinary :
    (st : SessionStore) (j : Text) (cs : List Candidate)
    → is_custom_word_orig j st ≡ true
    → all (ordinary st) cs ≡ true
    → contains (keys cs) j ≡ false
unfolding keys
contains-ordinary st j [] h k = refl
contains-ordinary st j (c ∷ cs) h k = ground (arith, contains-ordinary st j cs, text_eq_iff c.0 j)

lookup-drop_oldest_custom :
    (u : Casing) (j : Text) (st : SessionStore)
    → is_custom_word_orig j st ≡ true
    → lookup j (drop_oldest u st).recent_fwd ≡ lookup j st.recent_fwd
unfolding drop_oldest
lookup-drop_oldest_custom u j st h =
    let cs = evictable st st.recent_fwd in
    let out = take (length cs - recent_max) (sort_by_ts cs) in
    let kept : contains (keys out) j ≡ false = contains-ordinary st j out h (
      all-take (ordinary st) (length cs - recent_max) (sort_by_ts cs)
        (all-sort_by_ts (ordinary st) cs (all-evictable st st.recent_fwd))) in
    elim (Bool-cases (ltb recent_max (length cs))) [
      | inr e ↦ rw e
      | inl e ↦ rw (
        e,
        forget_candidates-recent_fwd u out st,
        lookup-remove_all j (keys out) st.recent_fwd,
        kept,
      )
    ]

custom-Keeps :
    (j : Text) {st st' : SessionStore}
    → Keeps st st'
    → is_custom_word_orig j st' ≡ is_custom_word_orig j st
unfolding is_custom_word_orig
custom-Keeps j k = rw (k.custom_fwd, k.custom_rev)

lookup-drop_oldest :
    (u : Casing) (j : Text) (st : SessionStore) {e : RecentEntry}
    → lookup j (drop_oldest u st).recent_fwd ≡ some e
    → lookup j st.recent_fwd ≡ some e
unfolding drop_oldest
lookup-drop_oldest u j st {e} h =
    let cs = evictable st st.recent_fwd in
    let out = take (length cs - recent_max) (sort_by_ts cs) in
    ground (
      arith,
      forget_candidates-recent_fwd u out st,
      lookup-remove_all j (keys out) st.recent_fwd,
      Bool-cases (ltb recent_max (length cs)),
    )

-- A pruning leaves the entry of every custom word as it is; and each entry that it leaves is one that
-- was there, and is a custom word's or not older than the window.
pub lookup-prune_recent :
    (u : Casing) (now : ℕ) (j : Text) (st : SessionStore)
    → Distinct st.recent_fwd
    → (is_custom_word_orig j st ≡ true
        → lookup j (prune_recent u now st).recent_fwd ≡ lookup j st.recent_fwd)
      × ((e : RecentEntry)
          → lookup j (prune_recent u now st).recent_fwd ≡ some e
          → (lookup j st.recent_fwd ≡ some e)
            × ((is_custom_word_orig j st ≡ true) ⊎ (now - e.ts ≤ st.ttl_secs)))
unfolding prune_recent
lookup-prune_recent u now j st d = (custom, other)
  where
    st1 : SessionStore
    st1 = drop_stale u now st

    same : is_custom_word_orig j st1 ≡ is_custom_word_orig j st
    same =
        unfold drop_stale in
        custom-Keeps j (forget_keys-Keeps u (stale_keys now st st.recent_fwd) st)

    custom :
        is_custom_word_orig j st ≡ true
        → lookup j (drop_oldest u st1).recent_fwd ≡ lookup j st.recent_fwd
    custom h =
        lookup-drop_oldest_custom u j st1 (same ∙ h)
        ∙ (lookup-drop_stale u now j st d ∙ ground (arith, Option-cases (lookup j st.recent_fwd)))

    other :
        (e : RecentEntry)
        → lookup j (drop_oldest u st1).recent_fwd ≡ some e
        → (lookup j st.recent_fwd ≡ some e)
          × ((is_custom_word_orig j st ≡ true) ⊎ (now - e.ts ≤ st.ttl_secs))
    other e h =
        let k = lookup-drop_oldest u j st1 h in
        let q = lookup-drop_stale u now j st d in
        elim (Option-cases (lookup j st.recent_fwd)) [
          | inl f ↦ absurd (ground arith)
          | inr (x, f) ↦ (ground arith, ground arith)
        ]
