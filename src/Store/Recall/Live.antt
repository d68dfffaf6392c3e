-- ===== src/Store/Recall/Live.antt =====
-- src/mask/session.rs, `recall_token`: the entries of the value and the token.
use maskit_rs.Base.{
  ◌≡◌, ◌≤◌, ◌<◌, ◌+◌, ◌∙◌, ℕ, refl, sym, ap, Bool, true, false, Text, none, some, arith, Bool-cases,
  Option-cases, inl, inr, length, ◌||◌,
}
use maskit_rs.Base.Map.{
  text_eq_refl, lookup, insert, remove, lookup-insert_self, lookup-update, length-remove-le,
}
use maskit_rs.Str.{Casing}
use maskit_rs.Regex.{is_match}
use maskit_rs.Placeholder.{Draws, new_token, placeholder_rx}
use maskit_rs.Store.{
  SessionStore, RecentEntry, recent_max, prune_slack, is_custom_word_orig, suffix_index_add,
  touch_recent, db_lookup, fresh, refresh,
}
use maskit_rs.Store.Prune.{maybe_prune_recent}
use maskit_rs.Store.Index.{
  Registered, suffix_index_add-Registered, SameTables, suffix_index_add-SameTables,
  suffix_index_del-SameTables,
}
use maskit_rs.Store.Recall.{
  Recalled, register, rehydrate, retire, issue, recall_db, recall_recent, recall_token,
}

-- The tables map the value to the token and the token to the value, both as of `now`.
pub record Live (now : ℕ) (orig tok : Text) (st : SessionStore) : Type 0 where
  pub fwd : RecentEntry
  pub rev : RecentEntry
  pub in_fwd : lookup orig st.recent_fwd ≡ some fwd
  pub in_rev : lookup tok st.recent_rev ≡ some rev
  pub fwd_token : fwd.token ≡ tok
  pub rev_token : rev.token ≡ orig
  pub fwd_ts : fwd.ts ≡ now
  pub rev_ts : rev.ts ≡ now

-- The backward table names the value under the token of its forward entry, if there is one.
abbrev pub Paired : Text → SessionStore → Type 0
Paired orig st =
    (e : RecentEntry)
    → lookup orig st.recent_fwd ≡ some e
    → (r : RecentEntry) × (lookup e.token st.recent_rev ≡ some r) × (r.token ≡ orig)

-- What a recall establishes for its value is what the next one asks for.
pub Live-Paired :
    {now : ℕ} {orig tok : Text} {st : SessionStore} → Live now orig tok st → Paired orig st
Live-Paired l e h =
    let same : l.fwd ≡ e = ground (arith, l.in_fwd) in
    (l.rev, rw (sym (ap (λ x. x.token) same) ∙ l.fwd_token) l.in_rev, l.rev_token)

Live-SameTables :
    {now : ℕ} {orig tok : Text} {st st' : SessionStore}
    → SameTables st st'
    → Live now orig tok st
    → Live now orig tok st'
Live-SameTables s l = record {
  fwd = l.fwd;
  rev = l.rev;
  in_fwd = ground arith;
  in_rev = ground arith;
  fwd_token = l.fwd_token;
  rev_token = l.rev_token;
  fwd_ts = l.fwd_ts;
  rev_ts = l.rev_ts;
}

register-Live :
    (u : Casing) (orig tok label : Text) (now : ℕ) (st : SessionStore)
    → Live now orig tok (register u orig tok label now st)
unfolding register
register-Live u orig tok label now st =
    let e : RecentEntry = record { token = tok; label = label; ts = now } in
    let r : RecentEntry = record { token = orig; label = label; ts = now } in
    record {
      fwd = e;
      rev = r;
      in_fwd = lookup-insert_self orig e st.recent_fwd;
      in_rev = lookup-insert_self tok r st.recent_rev;
      fwd_token = refl;
      rev_token = refl;
      fwd_ts = refl;
      rev_ts = refl;
    }

touch_recent-Live :
    (orig tok : Text) (now : ℕ) (st : SessionStore) (e r : RecentEntry)
    → lookup orig st.recent_fwd ≡ some e
    → lookup tok st.recent_rev ≡ some r
    → e.token ≡ tok
    → r.token ≡ orig
    → Live now orig tok (touch_recent tok orig now st)
unfolding touch_recent
touch_recent-Live orig tok now st e r in_fwd in_rev et rt = record {
  fwd = refresh now e;
  rev = refresh now r;
  in_fwd = ground (arith, lookup-update orig orig (refresh now) st.recent_fwd, text_eq_refl orig);
  in_rev = ground (arith, lookup-update tok tok (refresh now) st.recent_rev, text_eq_refl tok);
  fwd_token = et;
  rev_token = rt;
  fwd_ts = refl;
  rev_ts = refl;
}

suffix_index_add-Live :
    (u : Casing) (t : Text) {now : ℕ} {orig tok : Text} (st : SessionStore)
    → Live now orig tok st
    → Live now orig tok (suffix_index_add u t st)
suffix_index_add-Live u t st l = Live-SameTables (suffix_index_add-SameTables u t st) l

-- Only the backward table and the index change.
pub retire-recent_fwd :
    (u : Casing) (orig tok : Text) (st : SessionStore)
    → (retire u orig tok st).recent_fwd ≡ st.recent_fwd
unfolding retire
retire-recent_fwd u orig tok st = elim (Option-cases (lookup orig st.recent_fwd)) [
  | inl e ↦ rw (e, retire)
  | inr (prev, e) ↦ ground (
    arith,
    (suffix_index_del-SameTables u prev.token
        (record st { recent_rev = remove prev.token st.recent_rev })).recent_fwd,
  )
]

length-register-le :
    (u : Casing) (orig tok label : Text) (now : ℕ) (st : SessionStore)
    → length (register u orig tok label now st).recent_fwd ≤ length st.recent_fwd + 1
unfolding register insert
length-register-le u orig tok label now st = omega (arith, length-remove-le orig st.recent_fwd)

-- Below the water mark nothing is pruned.
maybe_prune_small :
    (u : Casing) (now : ℕ) (st : SessionStore)
    → length st.recent_fwd ≤ recent_max + prune_slack
    → maybe_prune_recent u now st ≡ st
unfolding maybe_prune_recent
maybe_prune_small u now st h = ground arith

module _ (u : Casing) (d : Draws) (taken : Text → Text → Bool) (now : ℕ) (orig label : Text) where
  -- What a recall ends with: the entry of the window is used again, or a mapping is registered.
  WhenReused : (Recalled → Type 0) → SessionStore → Type 0
  WhenReused P st =
      (hit : RecentEntry)
      → lookup orig st.recent_fwd ≡ some hit
      → P (hit.token, true, touch_recent hit.token orig now (suffix_index_add u hit.token st))

  WhenRegistered : (Recalled → Type 0) → Type 0
  WhenRegistered P =
      (tok lab : Text) (reused : Bool) (st : SessionStore)
      → P (tok, reused, suffix_index_add u tok (register u orig tok lab now st))

  pub issue_small :
      (st : SessionStore)
      → length st.recent_fwd < recent_max + prune_slack
      → issue u d taken now orig label st ≡ (
        new_token d u label taken,
        false,
        suffix_index_add u (new_token d u label taken) (
            register u orig
              (new_token d u label taken)
              label
              now
              (retire u orig (new_token d u label taken) st)),
      )
  unfolding issue
  issue_small st h =
      let tok = new_token d u label taken in
      let st1 = retire u orig tok st in
      let st2 = register u orig tok label now st1 in
      let small : length (suffix_index_add u tok st2).recent_fwd ≤ recent_max + prune_slack =
        rw ((suffix_index_add-SameTables u tok st2).recent_fwd) (
          omega (
            arith,
            length-register-le u orig tok label now st1,
            ap length (retire-recent_fwd u orig tok st),
          )) in
      rw (maybe_prune_small u now (suffix_index_add u tok st2) small) refl

  issue-either :
      (P : Recalled → Type 0) (st : SessionStore)
      → length st.recent_fwd < recent_max + prune_slack
      → WhenRegistered P
      → P (issue u d taken now orig label st)
  unfolding WhenRegistered
  issue-either P st h registered = rw (issue_small st h) (
      registered (new_token d u label taken) label false
        (retire u orig (new_token d u label taken) st))

  recall_db-either :
      (P : Recalled → Type 0) (st : SessionStore)
      → length st.recent_fwd < recent_max + prune_slack
      → WhenRegistered P
      → P (recall_db u d taken now orig label st)
  unfolding recall_db rehydrate WhenRegistered
  recall_db-either P st h registered = elim (Option-cases (db_lookup orig st)) [
    | inl e ↦ rw (e, recall_db) (issue-either P st h registered)
    | inr ((tok, lab), e) ↦ rw (e, recall_db) (registered tok lab true st)
  ]

  recall_recent-either :
      (P : Recalled → Type 0) (st : SessionStore)
      → length st.recent_fwd < recent_max + prune_slack
      → WhenReused P st
      → WhenRegistered P
      → P (recall_recent u d taken now orig label st)
  unfolding recall_recent WhenReused
  recall_recent-either P st h reused registered = elim (Option-cases (lookup orig st.recent_fwd)) [
    | inl e ↦ rw (e, recall_recent) (recall_db-either P st h registered)
    | inr (hit, e) ↦ elim (Bool-cases (is_custom_word_orig orig st || fresh now st hit)) [
      | inl yes_reuse ↦ rw (e, recall_recent, yes_reuse) (reused hit e)
      | inr stale ↦ rw (e, recall_recent, stale) (recall_db-either P st h registered)
    ]
  ]

  recall_token-either :
      (P : Recalled → Type 0) (st : SessionStore)
      → is_match placeholder_rx orig ≡ false
      → lookup orig st.custom_fwd ≡ none
      → length st.recent_fwd < recent_max + prune_slack
      → WhenReused P st
      → WhenRegistered P
      → P (recall_token u d taken now orig label st)
  unfolding recall_token
  recall_token-either P st plain no_custom h reused registered =
      rw (plain, no_custom, recall_token) (recall_recent-either P st h reused registered)

  -- For a value with no token in it and no permanent mapping, while no pruning is due, and whose
  -- entry in the window, if it has one, the backward table confirms: on each of the three ways
  -- (reuse, the stored mapping, a new token) it gets a token that both tables map to it and back, as
  -- of now. Where two tokens share a suffix the call may not return; this is about its tables.
  pub recall_token-Live :
      (st : SessionStore)
      → Paired orig st
      → is_match placeholder_rx orig ≡ false
      → lookup orig st.custom_fwd ≡ none
      → length st.recent_fwd < recent_max + prune_slack
      → Live now orig
          (recall_token u d taken now orig label st).0
          (recall_token u d taken now orig label st).2
  unfolding WhenReused WhenRegistered
  recall_token-Live st paired plain no_custom h =
      recall_token-either (λ r. Live now orig r.0 r.2) st plain no_custom h
        (λ hit e.
          let s = suffix_index_add-SameTables u hit.token st in
          let (r, q, same) = paired hit e in
          touch_recent-Live orig hit.token now (suffix_index_add u hit.token st) hit r
            (rw s.recent_fwd e) (rw s.recent_rev q) refl same)
        (λ tok lab reused st1.
          suffix_index_add-Live u tok (register u orig tok lab now st1)
            (register-Live u orig tok lab now st1))

  -- The forward table names the token, as of now; and where the call returns, its suffix is the
  -- token's own.
  abbrev pub Named : Text → SessionStore → Type 0
  Named tok st =
      ((fwd : RecentEntry) × (lookup orig st.recent_fwd ≡ some fwd)
        × (fwd.token ≡ tok)
        × (fwd.ts ≡ now))
      × (st.halted ≡ false → Registered u tok st)

  pub recall_token-Named :
      (st : SessionStore)
      → is_match placeholder_rx orig ≡ false
      → lookup orig st.custom_fwd ≡ none
      → length st.recent_fwd < recent_max + prune_slack
      → Named
          (recall_token u d taken now orig label st).0
          (recall_token u d taken now orig label st).2
  unfolding WhenReused WhenRegistered touch_recent
  recall_token-Named st plain no_custom h =
      recall_token-either (λ r. Named r.0 r.2) st plain no_custom h
        (λ hit e.
          let s = suffix_index_add-SameTables u hit.token st in
          (
            (
              refresh now hit,
              ground (
                arith,
                s.recent_fwd,
                lookup-update orig orig (refresh now) (suffix_index_add u hit.token st).recent_fwd,
                text_eq_refl orig,
              ),
              refl,
              refl,
            ),
            suffix_index_add-Registered u hit.token st,
          ))
        (λ tok lab reused st1.
          let l =
            suffix_index_add-Live u tok (register u orig tok lab now st1)
              (register-Live u orig tok lab now st1) in
          (
            (l.fwd, l.in_fwd, l.fwd_token, l.fwd_ts),
            suffix_index_add-Registered u tok (register u orig tok lab now st1),
          ))
