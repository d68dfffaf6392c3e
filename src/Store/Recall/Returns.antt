-- ===== src/Store/Recall/Returns.antt =====
-- src/mask/session.rs, `recall_token`: where the call returns.
use maskit_rs.Base.{ℕ, ◌<◌, ◌≡◌, ◌⊎◌, false, Text}
use maskit_rs.Base.Map.{has_key}
use maskit_rs.Str.{Casing}
use maskit_rs.Placeholder.{Draws, safe_label, token_suffix}
use maskit_rs.Placeholder.Generate.{Refused}
use maskit_rs.Store.{SessionStore, token_taken}
use maskit_rs.Store.Index.{Registered}

-- The index has the token itself for its suffix, or nothing.
abbrev pub Admits : Casing → Text → SessionStore → Type 0
Admits u tok st = Registered u tok st ⊎ (has_key (token_suffix u tok) st.recent_suffix ≡ false)

module _ (u : Casing) (d : Draws) (now : ℕ) (orig label : Text) (st : SessionStore) where
  abbrev pub Returns : SessionStore → Type 0
  Returns st' =
      (st'.halted ≡ false) ⊎ ((m : ℕ) → m < 20 → Refused d (token_taken st) (safe_label u label) m)
