-- ===== src/Store/Prune.antt =====
-- src/mask/session.rs, `prune_recent` and `maybe_prune_recent`: the reuse tables are cut back.
pub mod Bound
pub mod Kept
use maskit_rs.Base.{
  ℕ, ◌+◌, ◌-◌, Bool, true, false, not, ◌&&◌, List, [], ◌∷◌, Text, none, some, leb, ltb,
  if◌then◌else◌, length, take,
}
use maskit_rs.Base.Map.{lookup, remove}
use maskit_rs.Str.{Casing}
use maskit_rs.Store.{
  SessionStore, RecentEntry, recent_max, prune_slack, is_custom_word_orig, suffix_index_del,
}

-- key, token and time of an entry that may be evicted
abbrev pub Candidate : Type 0
Candidate = Text × Text × ℕ

abbrev pub stale : ℕ → SessionStore → Text → RecentEntry → Bool
stale now st k e = not (is_custom_word_orig k st) && ltb st.ttl_secs (now - e.ts)

unfoldable pub stale_keys : ℕ → SessionStore → List (Text × RecentEntry) → List Text
stale_keys now st [] = []
stale_keys now st ((k, e) ∷ m) =
    let rest = stale_keys now st m in if stale now st k e then k ∷ rest else rest

unfoldable pub evictable : SessionStore → List (Text × RecentEntry) → List Candidate
evictable st [] = []
evictable st ((k, e) ∷ m) =
    let rest = evictable st m in
    if is_custom_word_orig k st then rest else (k, e.token, e.ts) ∷ rest

-- `sort_by` on the times, which is stable
unfoldable pub place : Candidate → List Candidate → List Candidate
place c [] = c ∷ []
place c (d ∷ ds) = if leb c.2 d.2 then c ∷ d ∷ ds else d ∷ place c ds

unfoldable pub sort_by_ts : List Candidate → List Candidate
sort_by_ts [] = []
sort_by_ts (c ∷ cs) = place c (sort_by_ts cs)

module _ (u : Casing) where
  -- one entry leaves the three tables
  unfoldable pub forget : Text → Text → SessionStore → SessionStore
  forget k tok st =
      suffix_index_del u tok
        (record st { recent_fwd = remove k st.recent_fwd; recent_rev = remove tok st.recent_rev })

  unfoldable pub forget_keys : List Text → SessionStore → SessionStore
  forget_keys [] st = st
  forget_keys (k ∷ ks) st =
      forget_keys ks (elim (lookup k st.recent_fwd) [ none ↦ st | some e ↦ forget k e.token st ])

  unfoldable pub forget_candidates : List Candidate → SessionStore → SessionStore
  forget_candidates [] st = st
  forget_candidates ((k, tok, _) ∷ cs) st = forget_candidates cs (forget k tok st)

  unfoldable pub drop_stale : ℕ → SessionStore → SessionStore
  drop_stale now st = forget_keys (stale_keys now st st.recent_fwd) st

  unfoldable pub drop_oldest : SessionStore → SessionStore
  drop_oldest st =
      let candidates = evictable st st.recent_fwd in
      if ltb recent_max (length candidates)
      then forget_candidates (take (length candidates - recent_max) (sort_by_ts candidates)) st
      else st

  unfoldable pub prune_recent : ℕ → SessionStore → SessionStore
  prune_recent now st = drop_oldest (drop_stale now st)

  unfoldable pub maybe_prune_recent : ℕ → SessionStore → SessionStore
  maybe_prune_recent now st =
      if leb (length st.recent_fwd) (recent_max + prune_slack) then st else prune_recent now st
