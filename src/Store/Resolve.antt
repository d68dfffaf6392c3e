-- ===== src/Store/Resolve.antt =====
-- src/mask/session.rs, `lookup`: a token back to the value.
use maskit_rs.Base.{◌||◌, Option, Text, none, some, ℕ, zero, suc, if◌then◌else◌}
use maskit_rs.Base.Map.{text_eq, lookup}
use maskit_rs.Regex.{is_match}
use maskit_rs.Placeholder.{placeholder_rx}
use maskit_rs.Store.{SessionStore, is_custom_word_orig, is_custom_word_token, touch_recent, fresh}

-- a value that still holds a token is no clear text
unfoldable pub clear_text : Text → Option Text
clear_text h = if is_match placeholder_rx h then none else some h

module _ (sid : Text) (now : ℕ) where
  unfoldable pub session_rev : Text → SessionStore → Option Text
  session_rev tok st = elim (lookup sid st.sessions) [ none ↦ none | some s ↦ lookup tok s.rev ]

  -- a custom word lasts; any other value is given back within the window only
  unfoldable pub recent_orig : Text → SessionStore → Option Text
  recent_orig tok st = elim (lookup tok st.recent_rev) [
    | none ↦ none
    | some rec ↦
        if (is_custom_word_orig rec.token st || is_custom_word_token tok st) || fresh now st rec
        then some rec.token
        else none
  ]

  unfoldable pub custom_orig : Text → SessionStore → Option Text
  custom_orig tok st = elim (lookup tok st.custom_rev) [ none ↦ none | some rec ↦ some rec.token ]

  -- one level of the unwrapping
  unfoldable pub inner : Text → SessionStore → Option Text
  inner tok st = elim (session_rev tok st) [
    | some o ↦ some o
    | none ↦ elim (recent_orig tok st) [ some o ↦ some o | none ↦ custom_orig tok st ]
  ]

  -- `while let Some(h)`, with the levels left
  unfoldable pub unwrap : ℕ → Text → SessionStore → Text
  unwrap zero h st = h
  unwrap (suc left) h st =
      if is_match placeholder_rx h
      then elim (inner h st) [ none ↦ h | some i ↦ if text_eq i h then h else unwrap left i st ]
      else h

  -- the first level, which touches the entry that it finds
  unfoldable pub first_hit : Text → SessionStore → Option Text × SessionStore
  first_hit tok st = elim (session_rev tok st) [
    | some o ↦ (some o, st)
    | none ↦ elim (recent_orig tok st) [
      | some o ↦ (some o, touch_recent tok o now st)
      | none ↦ (custom_orig tok st, st)
    ]
  ]

  unfoldable pub lookup_token : Text → SessionStore → Option Text × SessionStore
  lookup_token tok st =
      let (hit, st') = first_hit tok st in
      (elim hit [ none ↦ none | some h ↦ clear_text (unwrap 5 h st') ], st')
