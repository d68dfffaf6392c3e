-- ===== src/Store/Recall/Fresh.antt =====
-- src/mask/session.rs: a token that is issued with the test of its own store.
use maskit_rs.Base.{
  ℕ, ◌<◌, ◌+◌, ◌≡◌, ◌⊎◌, ◌∙◌, ap, inl, inr, Option-cases, false, Text, length, arith,
}
use maskit_rs.Base.Map.{has_key, lookup, remove, lookup-remove}
use maskit_rs.Str.{Casing}
use maskit_rs.Placeholder.{token_suffix, new_token, Draws, safe_label, format_token, rand_suffix}
use maskit_rs.Placeholder.Label.{safe_label-IsLabel}
use maskit_rs.Placeholder.Format.{token_suffix-format_token}
use maskit_rs.Placeholder.Generate.{new_token_lem, Refused, rand_suffix-IsSuffix}
use maskit_rs.Store.{
  SessionStore, token_taken, recent_max, prune_slack, suffix_index_add, suffix_index_del,
}
use maskit_rs.Store.Recall.Live.{issue_small}
use maskit_rs.Store.Recall.{issue, register, retire}

-- A token that is issued against the store's own test stands for no value yet, in the window or for
-- good, and its suffix is in no use, unless all of the twenty drawn tokens were in use.
pub issue-token_taken :
    (u : Casing) (d : Draws) (now : ℕ) (orig label : Text) (st : SessionStore)
    → (n : ℕ) × ((issue u d (token_taken st) now orig label st).0
        ≡ format_token (safe_label u label) (rand_suffix d n))
      × (((has_key (issue u d (token_taken st) now orig label st).0 st.recent_rev ≡ false)
            × (has_key (issue u d (token_taken st) now orig label st).0 st.custom_rev ≡ false)
            × (has_key (rand_suffix d n) st.recent_suffix ≡ false))
          ⊎ ((m : ℕ) → m < 20 → Refused d (token_taken st) (safe_label u label) m))
unfolding issue token_taken
issue-token_taken u d now orig label st =
    let (n, e, _, _, rest) = new_token_lem d u label (token_taken st) in
    (n, e, elim rest [ inl free ↦ inl (ground arith) | inr busy ↦ inr busy ])

retire_free :
    (u : Casing) (orig tok sfx : Text) (st : SessionStore)
    → has_key sfx st.recent_suffix ≡ false
    → st.halted ≡ false
    → (has_key sfx (retire u orig tok st).recent_suffix ≡ false)
      × ((retire u orig tok st).halted ≡ false)
unfolding retire has_key suffix_index_del
retire_free u orig tok sfx st free returns = elim (Option-cases (lookup orig st.recent_fwd)) [
  | inl e ↦ rw (e, retire) (free, returns)
  | inr (prev, e) ↦
      let st1 : SessionStore = record st { recent_rev = remove prev.token st.recent_rev } in
      rw (e, retire)
        (
          ground (arith, lookup-remove (token_suffix u prev.token) sfx st.recent_suffix),
          ground arith,
        )
]

pub add_free :
    (u : Casing) (tok : Text) (st : SessionStore)
    → has_key (token_suffix u tok) st.recent_suffix ≡ false
    → st.halted ≡ false
    → (suffix_index_add u tok st).halted ≡ false
unfolding suffix_index_add has_key
add_free u tok st free returns = ground arith

-- While no pruning is due, issuing a token against the store's own test returns: no registration
-- waits for itself, unless all of the twenty drawn tokens were in use.
pub issue-returns :
    (u : Casing) (d : Draws) (now : ℕ) (orig label : Text) (st : SessionStore)
    → st.halted ≡ false
    → length st.recent_fwd < recent_max + prune_slack
    → ((issue u d (token_taken st) now orig label st).2.halted ≡ false)
      ⊎ ((m : ℕ) → m < 20 → Refused d (token_taken st) (safe_label u label) m)
unfolding token_taken register
issue-returns u d now orig label st returns small =
    let tok = new_token d u label (token_taken st) in
    let (n, e, _, _, rest) = new_token_lem d u label (token_taken st) in
    elim rest [
      | inr busy ↦ inr busy
      | inl free ↦
          let own : token_suffix u tok ≡ rand_suffix d n =
            ap (token_suffix u) e
            ∙ token_suffix-format_token (safe_label u label) (rand_suffix d n)
                (safe_label-IsLabel u label) (rand_suffix-IsSuffix d n) u in
          let (left, kept) = retire_free u orig tok (rand_suffix d n) st (ground arith) returns in
          inl (
            rw (issue_small u d (token_taken st) now orig label st small) (
              add_free u tok (register u orig tok label now (retire u orig tok st)) (rw own left)
                kept))
    ]
