-- ===== src/Store/Recall.antt =====
-- src/mask/session.rs, `recall_token`, `remember` and `drain_pending_persist`: a value gets a token.
pub mod Live
pub mod Fresh
pub mod Keeps
pub mod Stable
pub mod Returns
use maskit_rs.Base.{
  Bool, true, false, ◌||◌, List, [], ◌∷◌, Option, Text, none, some, ℕ, if◌then◌else◌, contains,
  ◌>>=◌,
}
use maskit_rs.Base.Map.{text_eq, lookup, insert, remove, update, has_key}
use maskit_rs.Str.{Casing}
use maskit_rs.Regex.{is_match}
use maskit_rs.Placeholder.{Draws, new_token, placeholder_rx}
use maskit_rs.Store.{
  Session, SessionStore, RecentEntry, is_custom_word_orig, suffix_index_add, suffix_index_del,
  touch_recent, db_lookup, fresh,
}
use maskit_rs.Store.Prune.{maybe_prune_recent}

-- token, reused, state
abbrev pub Recalled : Type 0
Recalled = Text × Bool × SessionStore

module _ (u : Casing) where
  -- both directions of one mapping
  unfoldable pub register : Text → Text → Text → ℕ → SessionStore → SessionStore
  register orig tok label now st = record st {
    recent_fwd = insert orig (record { token = tok; label = label; ts = now }) st.recent_fwd;
    recent_rev = insert tok (record { token = orig; label = label; ts = now }) st.recent_rev;
  }

  unfoldable pub rehydrate : Text → Text → Text → ℕ → SessionStore → SessionStore
  rehydrate orig tok label now st = suffix_index_add u tok (register orig tok label now st)

  unfoldable pub remember_rev : Text → Text → Text → ℕ → SessionStore → SessionStore
  remember_rev tok orig label now st = rehydrate orig tok label now st

  -- The mapping of before, if it names another token, is unregistered.
  unfoldable pub retire : Text → Text → SessionStore → SessionStore
  retire orig tok st = elim (lookup orig st.recent_fwd) [
    | none ↦ st
    | some prev ↦
        if text_eq prev.token tok
        then st
        else suffix_index_del u prev.token
            (record st { recent_rev = remove prev.token st.recent_rev })
  ]

  module _ (d : Draws) (taken : Text → Text → Bool) (now : ℕ) where
    unfoldable pub issue : Text → Text → SessionStore → Recalled
    issue orig label st =
        let tok = new_token d u label taken in
        (
          tok,
          false,
          maybe_prune_recent u now
              (suffix_index_add u tok (register orig tok label now (retire orig tok st))),
        )

    unfoldable pub recall_db : Text → Text → SessionStore → Recalled
    recall_db orig label st = elim (db_lookup orig st) [
      | some (tok, stored_label) ↦ (tok, true, rehydrate orig tok stored_label now st)
      | none ↦ issue orig label st
    ]

    unfoldable pub recall_recent : Text → Text → SessionStore → Recalled
    recall_recent orig label st = elim (lookup orig st.recent_fwd) [
      | none ↦ recall_db orig label st
      | some hit ↦
          if is_custom_word_orig orig st || fresh now st hit
          then (hit.token, true, touch_recent hit.token orig now (suffix_index_add u hit.token st))
          else recall_db orig label st
    ]

    unfoldable pub recall_token : Text → Text → SessionStore → Recalled
    recall_token orig label st =
        if is_match placeholder_rx orig
        then (orig, false, st)
        else elim (lookup orig st.custom_fwd) [
          | some tok ↦ (tok, false, suffix_index_add u tok (touch_recent tok orig now st))
          | none ↦ recall_recent orig label st
        ]

    -- `HashSet::insert`
    abbrev pub set_insert : Text → List Text → List Text
    set_insert x xs = if contains xs x then xs else x ∷ xs

    unfoldable pub remember : Session → Text → Text → SessionStore → Bool × Session × SessionStore
    remember s orig label st =
        if has_key orig s.fwd
        then (false, s, st)
        else let (tok, reused, st') = recall_token orig label st in
          (
            reused,
            record s {
              fwd = insert orig tok s.fwd;
              labels = insert orig label s.labels;
              rev = insert tok orig s.rev;
              pending_persist = set_insert orig s.pending_persist;
            },
            st',
          )

-- One entry of the list to be stored, where the session still maps the value.
unfoldable pub persist_entry : Session → Text → Option (Text × Text × Text)
persist_entry s orig = do
  tok ← lookup orig s.fwd
  some (tok, orig, elim (lookup orig s.labels) [ none ↦ [] | some label ↦ label ])

unfoldable pub persist_entries : Session → List Text → List (Text × Text × Text)
persist_entries s [] = []
persist_entries s (orig ∷ rest) = elim (persist_entry s orig) [
  | none ↦ persist_entries s rest
  | some e ↦ e ∷ persist_entries s rest
]

unfoldable pub drain_pending_persist :
    Text → SessionStore → List (Text × Text × Text) × SessionStore
drain_pending_persist sid st = elim (lookup sid st.sessions) [
  | none ↦ ([], st)
  | some s ↦ (
    persist_entries s s.pending_persist,
    record st { sessions = update sid (λ r. record r { pending_persist = [] }) st.sessions },
  )
]
