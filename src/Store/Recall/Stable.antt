-- ===== src/Store/Recall/Stable.antt =====
-- src/mask/session.rs: recalls and look-ups after a recall.
use maskit_rs.Base.{
  ◌≡◌, ◌≤◌, ◌<◌, ◌+◌, ◌-◌, ℕ, zero, suc, refl, ◌∙◌, Bool, true, false, ◌||◌, Text, none, some,
  arith, Bool-cases, Option-cases, inl, inr, length, leb, le→leb,
}
use maskit_rs.Base.Map.{lookup}
use maskit_rs.Str.{Casing}
use maskit_rs.Regex.{is_match}
use maskit_rs.Placeholder.{Draws, placeholder_rx}
use maskit_rs.Placeholder.Strict.{HasToken, placeholder_rx-HasToken}
use maskit_rs.Store.{
  SessionStore, RecentEntry, recent_max, prune_slack, is_custom_word_orig, is_custom_word_token,
  touch_recent, suffix_index_add,
}
use maskit_rs.Store.Index.{Registered, add-Registered}
use maskit_rs.Store.Recall.{Recalled, recall_recent, recall_token}
use maskit_rs.Store.Recall.Live.{Live, Paired, recall_token-Live, Named, recall_token-Named}
use maskit_rs.Store.Recall.Keeps.{Keeps, recall_token-Keeps}
use maskit_rs.Store.Resolve.{session_rev, recent_orig, unwrap, first_hit, clear_text, lookup_token}

recall_recent-reuse :
    (u : Casing) (d : Draws) (taken : Text → Text → Bool) (now : ℕ) (orig label : Text)
    (st : SessionStore) (hit : RecentEntry)
    → lookup orig st.recent_fwd ≡ some hit
    → now - hit.ts ≤ st.ttl_secs
    → recall_recent u d taken now orig label st
      ≡ (hit.token, true, touch_recent hit.token orig now (suffix_index_add u hit.token st))
unfolding recall_recent
recall_recent-reuse u d taken now orig label st hit e h =
    elim (Bool-cases (is_custom_word_orig orig st)) [
      | inl word ↦ rw (e, recall_recent, word) refl
      | inr other ↦ rw (e, recall_recent, other, le→leb (now - hit.ts) st.ttl_secs h) refl
    ]

-- What comes back from a second recall: the token, the reuse, and the call itself.
abbrev pub Again : Text → Recalled → Type 0
Again tok r = (r.0 ≡ tok) × (r.1 ≡ true) × (r.2.halted ≡ false)

Named-recall_token :
    (u : Casing) (d d' : Draws) (taken taken' : Text → Text → Bool) (now later : ℕ)
    (orig label label' : Text) (tok : Text) (st : SessionStore)
    → Named u d taken now orig label tok st
    → st.halted ≡ false
    → is_match placeholder_rx orig ≡ false
    → lookup orig st.custom_fwd ≡ none
    → later - now ≤ st.ttl_secs
    → Again tok (recall_token u d' taken' later orig label' st)
unfolding recall_token touch_recent
Named-recall_token u d d' taken taken' now later orig label label' tok st
      ((e, found, same, ts), kept) returns plain no_custom h =
    let registered : Registered u e.token st = rw same (kept returns) in
    rw
      (
        plain,
        no_custom,
        recall_token,
        recall_recent-reuse u d' taken' later orig label' st e found (rw ts h),
        add-Registered u e.token st registered,
      )
      (same, refl, returns)

-- For a value with no token in it and no permanent mapping, while no pruning is due: where its
-- recall returns, the value gets the same token again for as long as the window lasts, whatever
-- label, taken test and random draws the second call comes with; the second call reports the reuse,
-- and it returns.
pub recall_token-stable :
    (u : Casing) (d d' : Draws) (taken taken' : Text → Text → Bool) (now later : ℕ)
    (orig label label' : Text) (st : SessionStore)
    → is_match placeholder_rx orig ≡ false
    → lookup orig st.custom_fwd ≡ none
    → length st.recent_fwd < recent_max + prune_slack
    → (recall_token u d taken now orig label st).2.halted ≡ false
    → later - now ≤ st.ttl_secs
    → Again
        (recall_token u d taken now orig label st).0
        (recall_token u d' taken' later orig label' (recall_token u d taken now orig label st).2)
recall_token-stable u d d' taken taken' now later orig label label' st plain no_custom small returns
      h =
    let k = recall_token-Keeps u d taken now orig label st in
    Named-recall_token u d d' taken taken' now later orig label label'
      (recall_token u d taken now orig label st).0 (recall_token u d taken now orig label st).2
      (recall_token-Named u d taken now orig label st plain no_custom small) returns plain
      (rw k.custom_fwd no_custom) (rw k.ttl_secs h)

unwrap-plain :
    (sid : Text) (now left : ℕ) (h : Text) (st : SessionStore)
    → is_match placeholder_rx h ≡ false
    → unwrap sid now left h st ≡ h
unfolding unwrap
unwrap-plain sid now zero h st plain = refl
unwrap-plain sid now (suc left) h st plain = rw plain

Live-recent_orig :
    (sid : Text) {now : ℕ} (later : ℕ) {orig tok : Text} (st : SessionStore)
    → Live now orig tok st
    → later - now ≤ st.ttl_secs
    → recent_orig sid later tok st ≡ some orig
unfolding recent_orig
Live-recent_orig sid later {orig} {tok} st l h =
    let live : leb (later - l.rev.ts) st.ttl_secs ≡ true =
      le→leb (later - l.rev.ts) st.ttl_secs (rw l.rev_ts h) in
    rw (l.in_rev, recent_orig)
      (ground (
        arith,
        live,
        l.rev_token,
        Bool-cases (is_custom_word_orig l.rev.token st || is_custom_word_token tok st),
      ))

Live-first_hit :
    (sid : Text) {now : ℕ} (later : ℕ) {orig : Text} (tok : Text) (st : SessionStore)
    → Live now orig tok st
    → session_rev sid later tok st ≡ none
    → later - now ≤ st.ttl_secs
    → first_hit sid later tok st ≡ (some orig, touch_recent tok orig later st)
unfolding first_hit
Live-first_hit sid later tok st l own h = rw (own, Live-recent_orig sid later st l h, first_hit)

session_rev-Keeps :
    (sid : Text) (now : ℕ) (tok : Text) {st st' : SessionStore}
    → Keeps st st'
    → session_rev sid now tok st' ≡ session_rev sid now tok st
unfolding session_rev
session_rev-Keeps sid now tok k = rw (k.sessions, session_rev)

lookup_token-first_hit :
    (sid : Text) (now : ℕ) (tok orig : Text) (st st' : SessionStore)
    → first_hit sid now tok st ≡ (some orig, st')
    → is_match placeholder_rx orig ≡ false
    → (lookup_token sid now tok st).0 ≡ some orig
unfolding lookup_token clear_text
lookup_token-first_hit sid now tok orig st st' e plain =
    rw (e, lookup_token, unwrap-plain sid now 5 orig (first_hit sid now tok st).1 plain, plain)

-- For a value with no token in it and no permanent mapping, while no pruning is due, and whose entry
-- in the window, if it has one, the backward table confirms: the value is given back for the token
-- that its recall has given, within the window, in any session that does not itself map the token.
-- Where two tokens share a suffix the recall may not return; this is about where it does.
pub lookup_token-recall_token :
    (u : Casing) (d : Draws) (taken : Text → Text → Bool) (now later : ℕ) (sid orig label : Text)
    (st : SessionStore)
    → Paired orig st
    → is_match placeholder_rx orig ≡ false
    → lookup orig st.custom_fwd ≡ none
    → length st.recent_fwd < recent_max + prune_slack
    → later - now ≤ st.ttl_secs
    → session_rev sid later (recall_token u d taken now orig label st).0 st ≡ none
    → (lookup_token sid later
        (recall_token u d taken now orig label st).0
        (recall_token u d taken now orig label st).2).0
      ≡ some orig
lookup_token-recall_token u d taken now later sid orig label st paired plain no_custom small h own =
    let k = recall_token-Keeps u d taken now orig label st in
    let st' = (recall_token u d taken now orig label st).2 in
    let tok = (recall_token u d taken now orig label st).0 in
    let l = recall_token-Live u d taken now orig label st paired plain no_custom small in
    lookup_token-first_hit sid later tok orig st' (touch_recent tok orig later st')
      (Live-first_hit sid later tok st' l (session_rev-Keeps sid later tok k ∙ own)
        (rw k.ttl_secs h))
      plain

clear_text-plain : (h : Text) {o : Text} → clear_text h ≡ some o → is_match placeholder_rx o ≡ false
unfolding clear_text
clear_text-plain h e = ground arith

lookup_token-clear_text :
    (sid : Text) (now : ℕ) (tok : Text) (st : SessionStore) {o : Text}
    → (lookup_token sid now tok st).0 ≡ some o
    → (h : Text) × (clear_text h ≡ some o)
unfolding lookup_token
lookup_token-clear_text sid now tok st {o} e = elim (Option-cases (first_hit sid now tok st).0) [
  | inl f ↦ absurd (ground arith)
  | inr (h, f) ↦ (unwrap sid now 5 h (first_hit sid now tok st).1, ground arith)
]

-- No look-up gives back a text that holds a token, at any place, however the tables chain tokens.
pub lookup_token-HasToken :
    (sid : Text) (now : ℕ) (tok : Text) (st : SessionStore) {o : Text}
    → (lookup_token sid now tok st).0 ≡ some o
    → ¬ HasToken o
lookup_token-HasToken sid now tok st {o} e t =
    let (h, k) = lookup_token-clear_text sid now tok st e in
    let plain = clear_text-plain h k in let found = (placeholder_rx-HasToken o).1 t in cc
