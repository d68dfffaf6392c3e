-- ===== src/Engine/Pass.antt =====
-- src/mask/engine.rs, `restore_pass`: a text of tokens.
use maskit_rs.Base.{
  ℕ, zero, suc, ◌≤◌, ◌≡◌, refl, ap, Bool, true, false, Option, none, some, Text, List, [], ◌∷◌,
  ◌++◌, length, length-append, arith,
}
use maskit_rs.Base.Map.{text_eq_refl}
use maskit_rs.Regex.{Rx, find, Found}
use maskit_rs.Placeholder.{braced_placeholder_rx, format_token, canonicalize}
use maskit_rs.Placeholder.Label.{IsLabel, safe_label_fixed, to_lowercase-suffix}
use maskit_rs.Placeholder.Format.{IsSuffix}
use maskit_rs.Store.{SessionStore}
use maskit_rs.Engine.{
  RestoreEnv, RestoreStats, Restoring, count_restored, count_missing, canon_of, lookup_with_db,
  replace, replace_braced, replace_all, restore_pass,
}
use maskit_rs.Engine.Embedded.{embedded, apply_escape_lem}
use maskit_rs.Engine.Matches.{Captures, capture, captures_from, captures_iter}
use maskit_rs.Engine.Token.{token_text}
use maskit_rs.Engine.Find.{no_brace, format_token-append, find-no_brace, find-token, capture-token}

-- A token in a text: the plain text before it, its label and suffix, and the value that it hides.
pub record Segment : Type 0 where
  pub front : Text
  pub lab : Text
  pub sfx : Text
  pub orig : Text

pub record IsSegment (g : Segment) : Type 0 where
  pub plain : no_brace g.front ≡ true
  pub label : IsLabel g.lab
  pub suffix : IsSuffix g.sfx

abbrev pub AreSegments : List Segment → Type 0
AreSegments [] = Unit
AreSegments (g ∷ gs) = IsSegment g × AreSegments gs

-- The text with the tokens, and the text with the values.
unfoldable pub masked_text : List Segment → Text → Text
masked_text [] tail = tail
masked_text (g ∷ gs) tail = g.front ++ (format_token g.lab g.sfx ++ masked_text gs tail)

unfoldable pub unmasked_text : Bool → List Segment → Text → Text
unmasked_text escape [] tail = tail
unmasked_text escape (g ∷ gs) tail =
    g.front ++ (embedded escape g.orig ++ unmasked_text escape gs tail)

module _ (env : RestoreEnv) where
  -- One look-up after the other, the tokens are known by their values.
  unfoldable pub Knows : List Segment → SessionStore → Type 0
  Knows [] st = Unit
  Knows (g ∷ gs) st =
      ((lookup_with_db env (format_token g.lab g.sfx) st).0 ≡ some g.orig)
      × Knows gs (lookup_with_db env (format_token g.lab g.sfx) st).1

  canonicalize-token :
      (lab sfx : Text)
      → IsLabel lab
      → IsSuffix sfx
      → canonicalize env.casing lab sfx ≡ format_token lab sfx
  unfolding canonicalize
  canonicalize-token lab sfx l x =
      rw (safe_label_fixed env.casing lab l) (rw (to_lowercase-suffix sfx x.chars env.casing) refl)

  replace-known :
      (escape : Bool) (missing : Text → RestoreStats → RestoreStats) (c : Captures) (o : Text)
      (hit : Option Text × SessionStore) (s : RestoreStats)
      → hit.0 ≡ some o
      → replace env escape false missing c hit s
        ≡ (embedded escape o, record { stats = count_restored false s; store = hit.1 })
  unfolding replace
  replace-known escape missing c o (h, st) s e = rw (e, apply_escape_lem o escape) refl

  replace_braced-token :
      (escape : Bool) (prefix : Text) (g : Segment) (r : Restoring SessionStore)
      → IsSegment g
      → (lookup_with_db env (format_token g.lab g.sfx) r.store).0 ≡ some g.orig
      → replace_braced env escape
          (record {
            before = g.front;
            whole = format_token g.lab g.sfx;
            groups = g.lab ∷ g.sfx ∷ [];
            prefix = prefix;
          })
          r
        ≡ (
          embedded escape g.orig,
          record {
            stats = count_restored false r.stats;
            store = (lookup_with_db env (format_token g.lab g.sfx) r.store).1;
          },
        )
  unfolding replace_braced canon_of
  replace_braced-token escape prefix g r i h =
      rw (canonicalize-token g.lab g.sfx i.label i.suffix) (
        rw (text_eq_refl (format_token g.lab g.sfx)) (
          replace-known escape count_missing
            (record {
              before = g.front;
              whole = format_token g.lab g.sfx;
              groups = g.lab ∷ g.sfx ∷ [];
              prefix = prefix;
            })
            g.orig (lookup_with_db env (format_token g.lab g.sfx) r.store) r.stats h))

  -- The store after the look-ups, and the count of the values put back.
  unfoldable pub restored_all : List Segment → Restoring SessionStore → Restoring SessionStore
  restored_all [] r = r
  restored_all (g ∷ gs) r = restored_all gs (record {
    stats = count_restored false r.stats;
    store = (lookup_with_db env (format_token g.lab g.sfx) r.store).1;
  })

  captures_from-no_brace :
      (fuel : ℕ) (prefix tail : Text)
      → no_brace tail ≡ true
      → captures_from fuel braced_placeholder_rx prefix tail ≡ ([], tail)
  unfolding captures_from
  captures_from-no_brace zero prefix tail h = refl
  captures_from-no_brace (suc fuel) prefix tail h = rw (find-no_brace tail h, captures_from) refl

  captures_from-found :
      (fuel : ℕ) (prefix s before : Text) (f : Found) (c : Captures)
      → find braced_placeholder_rx s ≡ some (before, f)
      → capture prefix s (before, f) ≡ c
      → (let more = captures_from fuel braced_placeholder_rx (c.prefix ++ c.whole) f.1 in
          captures_from (suc fuel) braced_placeholder_rx prefix s ≡ (c ∷ more.0, more.1))
  unfolding captures_from
  captures_from-found fuel prefix s before f c e h =
      rw (e, captures_from)
        (ap
          (λ (d : Captures).
            let more = captures_from fuel braced_placeholder_rx (d.prefix ++ d.whole) f.1 in
            (d ∷ more.0, more.1))
          h)

  captures_from-token :
      (fuel : ℕ) (prefix : Text) (g : Segment) (rest : Text)
      → IsSegment g
      → (let p = prefix ++ g.front in
          let tok = format_token g.lab g.sfx in
          let more = captures_from fuel braced_placeholder_rx (p ++ tok) rest in
          captures_from (suc fuel) braced_placeholder_rx prefix (g.front ++ (tok ++ rest)) ≡ (
            record { before = g.front; whole = tok; groups = g.lab ∷ g.sfx ∷ []; prefix = p }
                ∷ more.0,
            more.1,
          ))
  captures_from-token fuel prefix g rest i = rw (format_token-append g.lab g.sfx rest) (
      captures_from-found fuel prefix (g.front ++ token_text g.lab g.sfx rest) g.front
        (g.lab ∷ g.sfx ∷ [], rest) _ (find-token g.front g.lab g.sfx rest i.plain i.label i.suffix)
        (capture-token prefix g.front g.lab g.sfx rest))

  pass_tokens :
      (fuel : ℕ) (prefix : Text) (escape : Bool) (gs : List Segment) (tail : Text)
      (r : Restoring SessionStore)
      → length gs ≤ fuel
      → AreSegments gs
      → no_brace tail ≡ true
      → Knows gs r.store
      → (let found = captures_from fuel braced_placeholder_rx prefix (masked_text gs tail) in
          replace_all env (replace_braced env escape) found.0 found.1 r
          ≡ (unmasked_text escape gs tail, restored_all gs r))
  unfolding masked_text unmasked_text Knows restored_all replace_all
  pass_tokens fuel prefix escape [] tail r l i h k =
      rw (captures_from-no_brace fuel prefix tail h) refl
  pass_tokens zero prefix escape (g ∷ gs) tail r l i h k = absurd (omega arith)
  pass_tokens (suc fuel) prefix escape (g ∷ gs) tail r l (i, is) h (k, ks) =
      rw (captures_from-token fuel prefix g (masked_text gs tail) i) (
        rw (replace_braced-token escape (prefix ++ g.front) g r i k) (
          rw
            (pass_tokens fuel ((prefix ++ g.front) ++ format_token g.lab g.sfx) escape gs tail
              (record {
                stats = count_restored false r.stats;
                store = (lookup_with_db env (format_token g.lab g.sfx) r.store).1;
              })
              (omega arith) is h ks)
            refl))

  segments_fit :
      (gs : List Segment) (tail : Text) → AreSegments gs → length gs ≤ length (masked_text gs tail)
  unfolding masked_text format_token
  segments_fit [] tail i = omega arith
  segments_fit (g ∷ gs) tail (i, is) = omega (
    arith,
    segments_fit gs tail is,
    length-append g.front (format_token g.lab g.sfx ++ masked_text gs tail),
    length-append (format_token g.lab g.sfx) (masked_text gs tail),
  )

  -- A pass over plain text without an opening brace and tokens that are known, one look-up after the
  -- other, puts every value in the place of its token, escaped or not, and counts each as restored.
  pub restore_pass-masked_text :
      (escape : Bool) (gs : List Segment) (tail : Text) (r : Restoring SessionStore)
      → AreSegments gs
      → no_brace tail ≡ true
      → Knows gs r.store
      → restore_pass env (masked_text gs tail) escape r
        ≡ (unmasked_text escape gs tail, restored_all gs r)
  unfolding restore_pass captures_iter
  restore_pass-masked_text escape gs tail r i h k =
      pass_tokens (length (masked_text gs tail)) [] escape gs tail r (segments_fit gs tail i) i h k

  captures_from-none :
      (fuel : ℕ) (rx : Rx) (prefix s : Text)
      → find rx s ≡ none
      → captures_from fuel rx prefix s ≡ ([], s)
  unfolding captures_from
  captures_from-none zero rx prefix s e = refl
  captures_from-none (suc fuel) rx prefix s e = rw (e, captures_from) refl

  -- A pass whose pattern is nowhere leaves the text and the state.
  pub replace_all-none :
      (rx : Rx) (f : Captures → Restoring SessionStore → Text × Restoring SessionStore)
      (text : Text) (r : Restoring SessionStore)
      → find rx text ≡ none
      → replace_all env f (captures_iter rx text).0 (captures_iter rx text).1 r ≡ (text, r)
  unfolding captures_iter replace_all
  replace_all-none rx f text r e = rw (captures_from-none (length text) rx [] text e) refl
