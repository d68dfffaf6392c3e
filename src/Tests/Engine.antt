-- ===== src/Tests/Engine.antt =====
-- src/mask/engine.rs at concrete inputs.
use maskit_rs.Engine.Pass.{Segment, masked_text, unmasked_text, restored_all, Knows}
use maskit_rs.Engine.Restored.{restore_final-masked_text}
use maskit_rs.Store.Resolve.{clear_text}
use maskit_rs.Base.Map.{has_key}
use maskit_rs.Base.Map.{lookup}
use maskit_rs.Placeholder.{braced_placeholder_rx}
use maskit_rs.Placeholder.{placeholder_rx}
use maskit_rs.Placeholder.{new_token}
use maskit_rs.Placeholder.{canonicalize}
use maskit_rs.Regex.{find}
use maskit_rs.Regex.{is_match}
use maskit_rs.Store.Resolve.{lookup_token}
use maskit_rs.Store.Resolve.{first_hit}
use maskit_rs.Store.Resolve.{unwrap}
use maskit_rs.Store.Resolve.{session_rev}
use maskit_rs.Engine.{replace_loose}
use maskit_rs.Engine.{replace_braced}
use maskit_rs.Engine.{lookup_with_db}
use maskit_rs.Base.{inl, ◌≡◌, refl, false, none, [], ◌∷◌, codes, arith}
use maskit_rs.Base.Map.{text_eq}
use maskit_rs.Store.{SessionStore, Session, new_store}
use maskit_rs.Engine.{RestoreEnv, RestoreStats, Restoring, restore_final}
use maskit_rs.Tests.Inputs.{casing}

abbrev pub env : RestoreEnv
env = record {
  sid = codes "s";
  now = 9;
  rev_db_lookup = λ t. none;
  casing = casing;
  is_skippable_str = λ t. false;
}

-- A session that has masked one number.
abbrev pub session : Session
session = record {
  fwd = (codes "13800138000", codes "{{PHONE_bcdfgh}}") ∷ [];
  rev = (codes "{{PHONE_bcdfgh}}", codes "13800138000") ∷ [];
  labels = [];
  pending_persist = [];
  ts = 1;
  inflight = false;
}

abbrev pub opened : SessionStore
opened = record new_store { sessions = (codes "s", session) ∷ [] }

abbrev pub no_stats : RestoreStats
no_stats = record { restored = 0; unresolved = 0; degraded = 0; samples = [] }

abbrev pub one_restored : RestoreStats
one_restored = record { restored = 1; unresolved = 0; degraded = 0; samples = [] }

abbrev pub at : SessionStore → Restoring SessionStore
at st = record { stats = no_stats; store = st }

abbrev pub phone : Segment
phone = record {
  front = codes "call ";
  lab = codes "PHONE";
  sfx = codes "bcdfgh";
  orig = codes "13800138000";
}

restored_call :
    restore_final env (codes "call {{PHONE_bcdfgh}}!") false (at opened)
    ≡ (codes "call 13800138000!", record { stats = one_restored; store = opened })
unfolding lookup_with_db replace_braced restore_final session_rev unwrap first_hit lookup_token
    is_match find canonicalize placeholder_rx braced_placeholder_rx text_eq has_key clear_text
restored_call = refl

-- A form of its own: inner space and capitals.
degraded_call :
    (restore_final env (codes "call {{ phone_BCDFGH }}!") false (at opened)).0
    ≡ codes "call 13800138000!"
unfolding lookup_with_db replace_braced restore_final session_rev unwrap first_hit lookup_token
    is_match find canonicalize placeholder_rx braced_placeholder_rx text_eq has_key clear_text
degraded_call = refl

restore_final-masked_text_example :
    restore_final env (codes "call {{PHONE_bcdfgh}}!") false (at opened)
    ≡ (codes "call 13800138000!", record { stats = one_restored; store = opened })
unfolding replace_loose masked_text unmasked_text Knows restored_all session_rev unwrap first_hit
    lookup_token is_match new_token placeholder_rx text_eq lookup clear_text
restore_final-masked_text_example =
    restore_final-masked_text env false (phone ∷ []) (codes "!") (at opened) session refl refl
      (
        (record {
          plain = refl;
          label = record { nonempty = omega arith; bounded = omega arith; chars = refl };
          suffix = record { six = refl; chars = refl };
        }),
        tt,
      )
      refl (refl, tt) (inl refl) (inl refl)
