-- ===== src/Store/Prune/Bound.antt =====
-- src/mask/session.rs, `prune_recent`: the number of entries.
use maskit_rs.Base.{
  ◌≡◌, ◌≤◌, ◌+◌, ◌-◌, ℕ, suc, refl, ◌∙◌, sym, ap, Bool, true, List, ◌∷◌, [], Text, arith,
  Bool-cases, inl, inr, not, ◌&&◌, leb, ltb, length, take, drop, filter, map, filter-filter,
  filter-append, length-append, length-filter-le, length-drop, take-append-drop,
}
use maskit_rs.Base.Map.{text_eq, text_eq_refl, remove}
use maskit_rs.Str.{Casing}
use maskit_rs.Store.{SessionStore, RecentEntry, recent_max, is_custom_word_orig, remove_all}
use maskit_rs.Store.Index.{suffix_index_del-SameTables}
use maskit_rs.Store.Prune.{
  Candidate, evictable, place, sort_by_ts, forget, forget_candidates, drop_stale, drop_oldest,
  prune_recent,
}
use maskit_rs.Store.Recall.Keeps.{Keeps, drop_oldest-Keeps}

-- No key of the list names the candidate.
survives : List Text → Candidate → Bool
survives [] c = true
survives (k ∷ ks) c = not (text_eq c.0 k) && survives ks c

survives_nil : (cs : List Candidate) → filter (survives []) cs ≡ cs
unfolding survives
survives_nil [] = refl
survives_nil (c ∷ cs) = ap (◌∷◌ c) (survives_nil cs)

evictable-remove :
    (st : SessionStore) (k : Text) (m : List (Text × RecentEntry))
    → evictable st (remove k m) ≡ filter (λ c. not (text_eq c.0 k)) (evictable st m)
unfolding evictable remove
evictable-remove st k [] = refl
evictable-remove st k ((j, e) ∷ m) = ground (arith, evictable-remove st k m)

evictable-remove_all :
    (st : SessionStore) (ks : List Text) (m : List (Text × RecentEntry))
    → evictable st (remove_all ks m) ≡ filter (survives ks) (evictable st m)
unfolding remove_all survives
evictable-remove_all st [] m = sym (survives_nil (evictable st m))
evictable-remove_all st (k ∷ ks) m =
    evictable-remove_all st ks (remove k m)
    ∙ (ap (filter (survives ks)) (evictable-remove st k m)
        ∙ filter-filter (survives ks) (λ c. not (text_eq c.0 k)) (evictable st m))

unfoldable pub keys : List Candidate → List Text
keys = map (λ c. c.0)

pub forget-recent_fwd :
    (u : Casing) (k tok : Text) (st : SessionStore)
    → (forget u k tok st).recent_fwd ≡ remove k st.recent_fwd
unfolding forget
forget-recent_fwd u k tok st =
    (suffix_index_del-SameTables u tok (record st {
      recent_fwd = remove k st.recent_fwd;
      recent_rev = remove tok st.recent_rev;
    })).recent_fwd

pub forget_candidates-recent_fwd :
    (u : Casing) (cs : List Candidate) (st : SessionStore)
    → (forget_candidates u cs st).recent_fwd ≡ remove_all (keys cs) st.recent_fwd
unfolding forget_candidates remove_all keys
forget_candidates-recent_fwd u [] st = refl
forget_candidates-recent_fwd u ((k, tok, t) ∷ cs) st =
    forget_candidates-recent_fwd u cs (forget u k tok st)
    ∙ ap (remove_all (keys cs)) (forget-recent_fwd u k tok st)

filter-place :
    (p : Candidate → Bool) (c : Candidate) (cs : List Candidate)
    → length (filter p (place c cs)) ≡ length (filter p (c ∷ cs))
unfolding place
filter-place p c [] = refl
filter-place p c (d ∷ ds) = elim (Bool-cases (leb c.2 d.2)) [
  | inl e ↦ rw e
  | inr e ↦ rw e (ground (arith, filter-place p c ds, Bool-cases (p c), Bool-cases (p d)))
]

filter-sort_by_ts :
    (p : Candidate → Bool) (cs : List Candidate)
    → length (filter p (sort_by_ts cs)) ≡ length (filter p cs)
unfolding sort_by_ts
filter-sort_by_ts p [] = refl
filter-sort_by_ts p (c ∷ cs) =
    filter-place p c (sort_by_ts cs) ∙ ground (arith, filter-sort_by_ts p cs, Bool-cases (p c))

length-place : (c : Candidate) (cs : List Candidate) → length (place c cs) ≡ suc (length cs)
unfolding place
length-place c [] = refl
length-place c (d ∷ ds) = ground (arith, length-place c ds)

length-sort_by_ts : (cs : List Candidate) → length (sort_by_ts cs) ≡ length cs
unfolding sort_by_ts
length-sort_by_ts [] = refl
length-sort_by_ts (c ∷ cs) = length-place c (sort_by_ts cs) ∙ ap suc (length-sort_by_ts cs)

survives-cons :
    (c : Candidate) (ks : List Text) (cs : List Candidate)
    → length (filter (survives ks) cs) ≡ 0
    → length (filter (survives (c.0 ∷ ks)) (c ∷ cs)) ≡ 0
unfolding survives
survives-cons c ks cs h = ground (
  arith,
  text_eq_refl c.0,
  filter-filter (survives ks) (λ d. not (text_eq d.0 c.0)) cs,
  narrower ks (λ d. not (text_eq d.0 c.0)) cs,
)
  where
    narrower :
        (ks : List Text) (p : Candidate → Bool) (cs : List Candidate)
        → length (filter (λ d. p d && survives ks d) cs) ≤ length (filter (survives ks) cs)
    narrower ks p [] = omega arith
    narrower ks p (d ∷ ds) =
        ground (arith, narrower ks p ds, Bool-cases (p d), Bool-cases (survives ks d))

-- None of the candidates named survives.
survives_self : (cs : List Candidate) → length (filter (survives (keys cs)) cs) ≡ 0
unfolding keys
survives_self [] = refl
survives_self (c ∷ cs) = survives-cons c (keys cs) cs (survives_self cs)

length-survivors-le :
    (n : ℕ) (cs : List Candidate)
    → length (filter (survives (keys (take n (sort_by_ts cs)))) cs) ≤ length cs - n
length-survivors-le n cs =
    let xs = sort_by_ts cs in
    let p = survives (keys (take n xs)) in
    let whole : length (filter p cs)
        ≡ length (filter p (take n xs)) + length (filter p (drop n xs)) =
      sym (filter-sort_by_ts p cs)
      ∙ (ap (λ ys. length (filter p ys)) (sym (take-append-drop n xs))
          ∙ (ap length (filter-append p (take n xs) (drop n xs))
              ∙ length-append (filter p (take n xs)) (filter p (drop n xs)))) in
    omega (
      arith,
      whole,
      survives_self (take n xs),
      length-filter-le p (drop n xs),
      length-drop n xs,
      length-sort_by_ts cs,
    )

-- A custom word is told by the permanent tables alone.
evictable-Keeps :
    {st st' : SessionStore} (m : List (Text × RecentEntry))
    → Keeps st st'
    → evictable st' m ≡ evictable st m
unfolding evictable is_custom_word_orig
evictable-Keeps [] k = refl
evictable-Keeps ((j, e) ∷ m) k = rw (k.custom_fwd, k.custom_rev, evictable-Keeps m k)

drop_oldest-bound :
    (u : Casing) (st : SessionStore)
    → length (evictable (drop_oldest u st) (drop_oldest u st).recent_fwd) ≤ recent_max
drop_oldest-bound u st =
    rw (evictable-Keeps (drop_oldest u st).recent_fwd (drop_oldest-Keeps u st)) (bound st)
  where
    bound : (st : SessionStore) → length (evictable st (drop_oldest u st).recent_fwd) ≤ recent_max
    bound st = elim (Bool-cases (ltb recent_max (length (evictable st st.recent_fwd)))) [
      | inr e ↦ unfold drop_oldest in rw e (ground arith)
      | inl e ↦
          let cs = evictable st st.recent_fwd in
          let n = length cs - recent_max in
          unfold drop_oldest in
          rw
            (
              e,
              forget_candidates-recent_fwd u (take n (sort_by_ts cs)) st,
              evictable-remove_all st (keys (take n (sort_by_ts cs))) st.recent_fwd,
            )
            (ground (arith, length-survivors-le n cs))
    ]

-- The entries whose values are no custom words.
abbrev pub ordinary : SessionStore → List (Text × RecentEntry) → List (Text × RecentEntry)
ordinary st m = filter (λ p. not (is_custom_word_orig p.0 st)) m

length-evictable :
    (st : SessionStore) (m : List (Text × RecentEntry))
    → length (evictable st m) ≡ length (ordinary st m)
unfolding evictable
length-evictable st [] = refl
length-evictable st ((k, e) ∷ m) = elim (Bool-cases (is_custom_word_orig k st)) [
  | inl word ↦ rw word (length-evictable st m)
  | inr other ↦ rw other (ap suc (length-evictable st m))
]

-- After a pruning at most `RECENT_MAX` entries that are no custom words are left, however large the
-- table was and however many of its times are equal.
pub prune_recent-bound :
    (u : Casing) (now : ℕ) (st : SessionStore)
    → length (ordinary (prune_recent u now st) (prune_recent u now st).recent_fwd) ≤ recent_max
unfolding prune_recent
prune_recent-bound u now st = omega (
  arith,
  drop_oldest-bound u (drop_stale u now st),
  length-evictable (prune_recent u now st) (prune_recent u now st).recent_fwd,
)
