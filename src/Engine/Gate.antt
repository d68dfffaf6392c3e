-- ===== src/Engine/Gate.antt =====
-- src/mask/engine.rs, `restore_final` without a session.
use maskit_rs.Base.{
  ◌≡◌, ◌≤◌, refl, Bool, not, ◌&&◌, none, Text, List, [], ◌∷◌, inl, inr, Bool-cases, arith,
}
use maskit_rs.Base.Map.{lookup}
use maskit_rs.Placeholder.{braced_placeholder_rx}
use maskit_rs.Store.{SessionStore}
use maskit_rs.Engine.{
  RestoreEnv, RestoreStats, Restoring, count_missing, count_orphans, restore_final, has,
}
use maskit_rs.Engine.Matches.{Captures, captures_iter}

-- Nothing is given away: the text, the store and the counts of values put back are the given ones.
abbrev pub Untouched : Text → Restoring SessionStore → Text × Restoring SessionStore → Type 0
Untouched text r x =
    (x.0 ≡ text)
    × (x.1.store ≡ r.store)
    × (x.1.stats.restored ≡ r.stats.restored)
    × (x.1.stats.degraded ≡ r.stats.degraded)
    × (r.stats.unresolved ≤ x.1.stats.unresolved)

module _ (env : RestoreEnv) where
  count_orphans_kept :
      (cs : List Captures) (s : RestoreStats)
      → ((count_orphans env cs s).restored ≡ s.restored)
        × ((count_orphans env cs s).degraded ≡ s.degraded)
        × (s.unresolved ≤ (count_orphans env cs s).unresolved)
  unfolding count_orphans count_missing
  count_orphans_kept [] s = ground arith
  count_orphans_kept (c ∷ cs) s = ground (arith, count_orphans_kept cs (count_missing c.whole s))

  -- For a session that the store does not have, whatever the text, nothing is restored: not the
  -- text, not the store and no count but that of the tokens left changes.
  pub restore_final-Untouched :
      (text : Text) (escape : Bool) (r : Restoring SessionStore)
      → lookup env.sid r.store.sessions ≡ none
      → Untouched text r (restore_final env text escape r)
  unfolding restore_final
  restore_final-Untouched text escape r gone = elim (Bool-cases (env.is_skippable_str text)) [
    | inl skip ↦ rw skip (refl, refl, refl, refl, omega arith)
    | inr read ↦ elim (Bool-cases (not (has env b'_' text) && not (has env b'{' text))) [
      | inl plain ↦ rw (read, plain) (refl, refl, refl, refl, omega arith)
      | inr tokens ↦
          let (a, b, c) = count_orphans_kept (captures_iter braced_placeholder_rx text).0 r.stats in
          rw (read, tokens, gone) (refl, refl, a, b, c)
    ]
  ]
