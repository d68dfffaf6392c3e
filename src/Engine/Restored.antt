-- ===== src/Engine/Restored.antt =====
-- src/mask/engine.rs, `restore_final`: a text of tokens.
use maskit_rs.Base.{
  ℕ, ◌≡◌, ◌⊎◌, inl, inr, Bool-cases, if◌then◌else◌, none, refl, ◌∙◌, Bool, true, false, not, ◌&&◌,
  ◌||◌, some, Text, List, [], ◌∷◌, ◌++◌, any, ◌==◌, arith,
}
use maskit_rs.Base.Map.{lookup}
use maskit_rs.Regex.{Rx, find}
use maskit_rs.Placeholder.{format_token, escaped_placeholder_rx, loose_placeholder_rx}
use maskit_rs.Store.{SessionStore, Session}
use maskit_rs.Engine.{
  RestoreEnv, Restoring, restore_passes, restore_final, has, restore_pass_escaped,
  restore_pass_loose, replace_escaped, replace_loose,
}
use maskit_rs.Engine.Find.{no_brace}
use maskit_rs.Engine.Pass.{
  Segment, AreSegments, masked_text, unmasked_text, Knows, restored_all, restore_pass-masked_text,
  replace_all-none,
}

and_false : (b : Bool) → (b && not true) ≡ false
and_false b = ground arith

module _ (env : RestoreEnv) where
  any-append : (p : ℕ → Bool) (a b : Text) → any p (a ++ b) ≡ (any p a || any p b)
  any-append p [] b = refl
  any-append p (c ∷ a) b = ground (arith, any-append p a b)

  has-masked_text :
      (g : Segment) (gs : List Segment) (tail : Text)
      → has env b'{' (masked_text (g ∷ gs) tail) ≡ true
  unfolding masked_text format_token
  has-masked_text g gs tail =
      ground (
        arith,
        any-append (λ c. c == b'{') g.front (format_token g.lab g.sfx ++ masked_text gs tail),
      )

  -- A later pass has nothing to do: the character of its forms is not there, or its pattern is not.
  abbrev pub IsQuiet : ℕ → Rx → Text → Type 0
  IsQuiet d rx text = (has env d text ≡ false) ⊎ (find rx text ≡ none)

  quiet_escaped :
      (text : Text) (escape : Bool) (r : Restoring SessionStore)
      → IsQuiet b'\\' escaped_placeholder_rx text
      → (if has env b'\\' text then restore_pass_escaped env text escape r else (text, r))
        ≡ (text, r)
  unfolding restore_pass_escaped
  quiet_escaped text escape r (inl h) = rw h refl
  quiet_escaped text escape r (inr h) = elim (Bool-cases (has env b'\\' text)) [
    | inl e ↦
        rw e (replace_all-none env escaped_placeholder_rx (replace_escaped env escape) text r h)
    | inr e ↦ rw e refl
  ]

  quiet_loose :
      (text : Text) (escape : Bool) (r : Restoring SessionStore)
      → IsQuiet b'_' loose_placeholder_rx text
      → (if has env b'_' text then restore_pass_loose env text escape r else (text, r)) ≡ (text, r)
  unfolding restore_pass_loose
  quiet_loose text escape r (inl h) = rw h refl
  quiet_loose text escape r (inr h) = elim (Bool-cases (has env b'_' text)) [
    | inl e ↦ rw e (replace_all-none env loose_placeholder_rx (replace_loose env escape) text r h)
    | inr e ↦ rw e refl
  ]

  passes-masked_text :
      (escape : Bool) (gs : List Segment) (tail : Text) (r : Restoring SessionStore)
      → AreSegments gs
      → no_brace tail ≡ true
      → Knows env gs r.store
      → IsQuiet b'\\' escaped_placeholder_rx (unmasked_text escape gs tail)
      → IsQuiet b'_' loose_placeholder_rx (unmasked_text escape gs tail)
      → restore_passes env (masked_text gs tail) escape r
        ≡ (unmasked_text escape gs tail, restored_all env gs r)
  unfolding restore_passes
  passes-masked_text escape gs tail r i h k b u =
      rw (restore_pass-masked_text env escape gs tail r i h k) (
        rw (quiet_escaped (unmasked_text escape gs tail) escape (restored_all env gs r) b)
          (rw (quiet_loose (unmasked_text escape gs tail) escape (restored_all env gs r) u) refl))

  final-plain :
      (escape : Bool) (text : Text) (r : Restoring SessionStore) (session : Session)
      → env.is_skippable_str text ≡ false
      → lookup env.sid r.store.sessions ≡ some session
      → no_brace text ≡ true
      → restore_passes env text escape r ≡ (text, r)
      → restore_final env text escape r ≡ (text, r)
  unfolding restore_final
  final-plain escape text r session skip known plain passes =
      elim (Bool-cases (not (has env b'_' text) && not (has env b'{' text))) [
        | inl none_there ↦ rw skip (rw none_there refl)
        | inr some_there ↦ rw skip (rw some_there (rw known passes))
      ]

  final-opened :
      (escape : Bool) (text : Text) (r : Restoring SessionStore) (session : Session)
      → env.is_skippable_str text ≡ false
      → lookup env.sid r.store.sessions ≡ some session
      → has env b'{' text ≡ true
      → restore_final env text escape r ≡ restore_passes env text escape r
  unfolding restore_final
  final-opened escape text r session skip known brace =
      rw skip (rw brace (rw (and_false (not (has env b'_' text))) (rw known refl)))

  -- The way back of a request: in an open session, a text of plain parts without a brace and of
  -- tokens that are known, one look-up after the other, is restored to the text with the values in
  -- the place of their tokens, escaped where that is asked for, each counted, where that text has no
  -- backslash or nothing that the second pass takes for a token, has no underscore or nothing that
  -- the third one does, and the test for payloads does not hold the masked text back.
  pub restore_final-masked_text :
      (escape : Bool) (gs : List Segment) (tail : Text) (r : Restoring SessionStore)
      (session : Session)
      → env.is_skippable_str (masked_text gs tail) ≡ false
      → lookup env.sid r.store.sessions ≡ some session
      → AreSegments gs
      → no_brace tail ≡ true
      → Knows env gs r.store
      → IsQuiet b'\\' escaped_placeholder_rx (unmasked_text escape gs tail)
      → IsQuiet b'_' loose_placeholder_rx (unmasked_text escape gs tail)
      → restore_final env (masked_text gs tail) escape r
        ≡ (unmasked_text escape gs tail, restored_all env gs r)
  unfolding masked_text unmasked_text restored_all
  restore_final-masked_text escape [] tail r session skip known i h k b u =
      final-plain escape tail r session skip known h (passes-masked_text escape [] tail r i h k b u)
  restore_final-masked_text escape (g ∷ gs) tail r session skip known i h k b u =
      final-opened escape (masked_text (g ∷ gs) tail) r session skip known
        (has-masked_text g gs tail)
      ∙ passes-masked_text escape (g ∷ gs) tail r i h k b u
