-- ===== src/Store/Recall/Keeps.antt =====
-- src/mask/session.rs, `recall_token`: the sessions, the permanent mappings, the window and the hook.
use maskit_rs.Base.{
  ◌≡◌, ℕ, Bool, List, ◌∷◌, [], Text, arith, Bool-cases, Option-cases, inl, inr, ltb, length, take,
  ◌-◌, ◌||◌,
}
use maskit_rs.Base.Map.{lookup, remove}
use maskit_rs.Str.{Casing}
use maskit_rs.Regex.{is_match}
use maskit_rs.Placeholder.{Draws, new_token, placeholder_rx}
use maskit_rs.Store.{
  SessionStore, recent_max, is_custom_word_orig, suffix_index_add, suffix_index_del, touch_recent,
  db_lookup, fresh,
}
use maskit_rs.Store.Prune.{
  forget, forget_keys, forget_candidates, drop_stale, drop_oldest, prune_recent, maybe_prune_recent,
  stale_keys, evictable, sort_by_ts, Candidate,
}
use maskit_rs.Store.Index.{suffix_index_add-SameTables, suffix_index_del-SameTables}
use maskit_rs.Store.Recall.{
  register, rehydrate, retire, issue, recall_db, recall_recent, recall_token,
}

pub record Keeps (st st' : SessionStore) : Type 0 where
  pub sessions : st'.sessions ≡ st.sessions
  pub custom_fwd : st'.custom_fwd ≡ st.custom_fwd
  pub custom_rev : st'.custom_rev ≡ st.custom_rev
  pub ttl_secs : st'.ttl_secs ≡ st.ttl_secs
  pub lookup_hook : st'.lookup_hook ≡ st.lookup_hook

pub Keeps-refl : (st : SessionStore) → Keeps st st
Keeps-refl st = ground arith

pub Keeps-trans : {a b c : SessionStore} → Keeps a b → Keeps b c → Keeps a c
Keeps-trans p q = ground arith

add-Keeps : (u : Casing) (tok : Text) (st : SessionStore) → Keeps st (suffix_index_add u tok st)
add-Keeps u tok st = let s = suffix_index_add-SameTables u tok st in ground arith

del-Keeps : (u : Casing) (tok : Text) (st : SessionStore) → Keeps st (suffix_index_del u tok st)
del-Keeps u tok st = let s = suffix_index_del-SameTables u tok st in ground arith

touch_recent-Keeps :
    (tok orig : Text) (now : ℕ) (st : SessionStore) → Keeps st (touch_recent tok orig now st)
unfolding touch_recent
touch_recent-Keeps tok orig now st = ground arith

module _ (u : Casing) where
  register-Keeps :
      (orig tok label : Text) (now : ℕ) (st : SessionStore)
      → Keeps st (register u orig tok label now st)
  unfolding register
  register-Keeps orig tok label now st = ground arith

  retire-Keeps : (orig tok : Text) (st : SessionStore) → Keeps st (retire u orig tok st)
  unfolding retire
  retire-Keeps orig tok st = elim (Option-cases (lookup orig st.recent_fwd)) [
    | inl e ↦ rw (e, retire) (Keeps-refl st)
    | inr (prev, e) ↦
        let st1 : SessionStore = record st { recent_rev = remove prev.token st.recent_rev } in
        let k = del-Keeps u prev.token st1 in ground arith
  ]

  forget-Keeps : (k tok : Text) (st : SessionStore) → Keeps st (forget u k tok st)
  unfolding forget
  forget-Keeps k tok st =
      let st1 : SessionStore = record st {
        recent_fwd = remove k st.recent_fwd;
        recent_rev = remove tok st.recent_rev;
      } in
      let h = del-Keeps u tok st1 in ground arith

  pub forget_keys-Keeps : (ks : List Text) (st : SessionStore) → Keeps st (forget_keys u ks st)
  unfolding forget_keys
  forget_keys-Keeps [] st = Keeps-refl st
  forget_keys-Keeps (k ∷ ks) st = elim (Option-cases (lookup k st.recent_fwd)) [
    | inl e ↦ rw e (forget_keys-Keeps ks st)
    | inr (x, e) ↦
        rw e
          (Keeps-trans (forget-Keeps k x.token st) (forget_keys-Keeps ks (forget u k x.token st)))
  ]

  forget_candidates-Keeps :
      (cs : List Candidate) (st : SessionStore) → Keeps st (forget_candidates u cs st)
  unfolding forget_candidates
  forget_candidates-Keeps [] st = Keeps-refl st
  forget_candidates-Keeps ((k, tok, t) ∷ cs) st =
      Keeps-trans (forget-Keeps k tok st) (forget_candidates-Keeps cs (forget u k tok st))

  pub drop_oldest-Keeps : (st : SessionStore) → Keeps st (drop_oldest u st)
  unfolding drop_oldest
  drop_oldest-Keeps st =
      let cs = evictable st st.recent_fwd in
      elim (Bool-cases (ltb recent_max (length cs))) [
        | inl e ↦ rw e (forget_candidates-Keeps (take (length cs - recent_max) (sort_by_ts cs)) st)
        | inr e ↦ rw e (Keeps-refl st)
      ]

  pub prune_recent-Keeps : (now : ℕ) (st : SessionStore) → Keeps st (prune_recent u now st)
  unfolding prune_recent drop_stale
  prune_recent-Keeps now st =
      Keeps-trans (forget_keys-Keeps (stale_keys now st st.recent_fwd) st)
        (drop_oldest-Keeps (forget_keys u (stale_keys now st st.recent_fwd) st))

  maybe_prune_recent-Keeps : (now : ℕ) (st : SessionStore) → Keeps st (maybe_prune_recent u now st)
  unfolding maybe_prune_recent
  maybe_prune_recent-Keeps now st =
      let p = prune_recent-Keeps now st in let r = Keeps-refl st in ground arith

  module _ (d : Draws) (taken : Text → Text → Bool) (now : ℕ) (orig label : Text) where
    rehydrate-Keeps :
        (tok lab : Text) (st : SessionStore) → Keeps st (rehydrate u orig tok lab now st)
    unfolding rehydrate
    rehydrate-Keeps tok lab st =
        Keeps-trans (register-Keeps orig tok lab now st)
          (add-Keeps u tok (register u orig tok lab now st))

    issue-Keeps : (st : SessionStore) → Keeps st (issue u d taken now orig label st).2
    unfolding issue
    issue-Keeps st =
        let tok = new_token d u label taken in
        let st1 = retire u orig tok st in
        let st2 = register u orig tok label now st1 in
        Keeps-trans (retire-Keeps orig tok st) (
          Keeps-trans (register-Keeps orig tok label now st1) (
            Keeps-trans (add-Keeps u tok st2)
              (maybe_prune_recent-Keeps now (suffix_index_add u tok st2))))

    recall_db-Keeps : (st : SessionStore) → Keeps st (recall_db u d taken now orig label st).2
    unfolding recall_db
    recall_db-Keeps st = elim (Option-cases (db_lookup orig st)) [
      | inl e ↦ rw (e, recall_db) (issue-Keeps st)
      | inr ((tok, lab), e) ↦ rw (e, recall_db) (rehydrate-Keeps tok lab st)
    ]

    recall_recent-Keeps :
        (st : SessionStore) → Keeps st (recall_recent u d taken now orig label st).2
    unfolding recall_recent
    recall_recent-Keeps st = elim (Option-cases (lookup orig st.recent_fwd)) [
      | inl e ↦ rw (e, recall_recent) (recall_db-Keeps st)
      | inr (hit, e) ↦ elim (Bool-cases (is_custom_word_orig orig st || fresh now st hit)) [
        | inl live ↦
            rw (e, recall_recent, live)
              (Keeps-trans (add-Keeps u hit.token st)
                (touch_recent-Keeps hit.token orig now (suffix_index_add u hit.token st)))
        | inr stale ↦ rw (e, recall_recent, stale) (recall_db-Keeps st)
      ]
    ]

    -- Recalling a token, pruning included, changes no session, no permanent mapping of a custom
    -- word, and neither the window nor the hook.
    pub recall_token-Keeps :
        (st : SessionStore) → Keeps st (recall_token u d taken now orig label st).2
    unfolding recall_token
    recall_token-Keeps st = elim (Bool-cases (is_match placeholder_rx orig)) [
      | inl e ↦ rw e (Keeps-refl st)
      | inr e ↦ elim (Option-cases (lookup orig st.custom_fwd)) [
        | inl f ↦ rw (e, f, recall_token) (recall_recent-Keeps st)
        | inr (tok, f) ↦
            rw (e, f, recall_token)
              (Keeps-trans (touch_recent-Keeps tok orig now st)
                (add-Keeps u tok (touch_recent tok orig now st)))
      ]
    ]
