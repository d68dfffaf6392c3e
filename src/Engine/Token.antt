-- ===== src/Engine/Token.antt =====
-- src/mask/placeholder.rs, `braced_placeholder_rx`, at a token.
pub mod Repeat
pub mod Suffix
use mathlib.Core.List.{flat_map}
use mathlib.Core.Path.{subst}
use maskit_rs.Base.{
  ℕ, zero, suc, ◌+◌, ◌-◌, ◌<◌, ◌≤◌, ◌≡◌, ◌⊎◌, refl, sym, ap, ◌∙◌, inl, inr, Bool-cases, Bool, true,
  false, not, ◌&&◌, ◌||◌, Option, none, some, Text, List, [], ◌∷◌, ◌++◌, append_assoc, append-nil,
  map, length, length-append, take, drop, all, ltb, leb, ◌==◌, if◌then◌else◌, arith, codes,
}
use maskit_rs.Str.{is_whitespace}
use maskit_rs.Regex.{
  Rx, seq, alt, rep, many, char, group, Found, ends, match_here, find, rep_ends, many_ends,
  fold_case, join_groups,
}
use maskit_rs.Placeholder.{
  braced_placeholder_rx, is_word, is_token_char, is_hex_char, is_label_char, suffix_pat,
  format_token,
}
use maskit_rs.Placeholder.Label.{IsLabel}
use maskit_rs.Placeholder.Format.{IsSuffix}
use Repeat.{
  flat_map-append, flat_map-last, flat_map-map, PlainWord, word, flat_map-rest, flat_map-label,
}
use Suffix.{
  rep_ends-six, rep_ends-none, fold_case-all, suffix_ends, closing, behind_label, closing-ends,
  Starts, Starts-map, Starts-flat_map, take-append, take-front, behind_label-ends,
}

abbrev behind_braces : Rx
behind_braces = seq (group (rep 1 12 is_word)) (seq (char b'_') behind_label)

under_ends :
    (c : ℕ) (s : Text) → (c == b'_') ≡ false → ends (seq (char b'_') behind_label) (c ∷ s) ≡ []
unfolding ends rep_ends flat_map
under_ends c s h = rw h refl

under-Starts :
    (s : Text) (g : Found)
    → Starts (ends behind_label s) g
    → Starts (ends (seq (char b'_') behind_label) (b'_' ∷ s)) g
unfolding ends rep_ends flat_map
under-Starts s g (more, e) =
    Starts-flat_map (λ f. join_groups f.0 (ends behind_label f.1)) (ends (char b'_') (b'_' ∷ s))
      ([], s) g ([], refl) (Starts-map (λ f. ([] ++ f.0, f.1)) (ends behind_label s) g (more, e))

all-weaken :
    (p q : ℕ → Bool) (s : Text)
    → ((c : ℕ) → p c ≡ true → q c ≡ true)
    → all p s ≡ true
    → all q s ≡ true
all-weaken p q [] f h = refl
all-weaken p q (c ∷ s) f h = ground (arith, f c, all-weaken p q s f)

abbrev plain : ℕ → Bool
plain c = is_word c && not (c == b'_')

label-plain : (c : ℕ) → is_label_char c ≡ true → plain c ≡ true
label-plain c h = ground arith

token-plain : (c : ℕ) → is_token_char c ≡ true → plain c ≡ true
unfolding is_token_char
token-plain c h = ground arith

behind_braces-ends :
    (lab w z : Text) (g : Found)
    → IsLabel lab
    → all is_token_char w ≡ true
    → Starts (ends behind_label (w ++ b'}' ∷ z)) g
    → Starts (ends behind_braces (lab ++ b'_' ∷ (w ++ b'}' ∷ z))) (lab ∷ g.0, g.1)
unfolding ends
behind_braces-ends lab w z g l h starts =
    let s : Text = lab ++ b'_' ∷ (w ++ b'}' ∷ z) in
    let after : Rx = seq (char b'_') behind_label in
    let held : Found → Found = λ f. (take (length s - length f.1) s ∷ f.0, f.1) in
    let inject : Text → Found = λ r. ([], r) in
    let follow : Found → List Found = λ f. join_groups f.0 (ends after f.1) in
    let k : Text → List Found = λ r. follow (held (inject r)) in
    let dead : (c : ℕ) (t : Text) → (c == b'_') ≡ false → k (c ∷ t) ≡ [] =
      λ c t e. ap (join_groups (take (length s - length (c ∷ t)) s ∷ [])) (under_ends c t e) in
    let gathered : flat_map follow (map held (map inject (rep_ends 1 12 is_word s)))
        ≡ k (b'_' ∷ (w ++ b'}' ∷ z)) =
      flat_map-map follow held (map inject (rep_ends 1 12 is_word s))
      ∙ (flat_map-map (λ f. follow (held f)) inject (rep_ends 1 12 is_word s)
          ∙ flat_map-label k dead 1 12 lab w z
              (all-weaken is_label_char plain lab label-plain l.chars)
              (all-weaken is_token_char plain w token-plain h) l.nonempty l.bounded) in
    subst (λ fs. Starts fs (lab ∷ g.0, g.1)) (sym gathered)
      (subst (λ t. Starts (k (b'_' ∷ (w ++ b'}' ∷ z))) (t ∷ g.0, g.1))
        (take-front lab (b'_' ∷ (w ++ b'}' ∷ z)))
        (Starts-map (λ f. (take (length s - length (b'_' ∷ (w ++ b'}' ∷ z))) s ∷ f.0, f.1))
          (ends after (b'_' ∷ (w ++ b'}' ∷ z))) g (under-Starts (w ++ b'}' ∷ z) g starts)))

spaces_end :
    (c : ℕ) (s : Text)
    → is_whitespace c ≡ false
    → ends (many is_whitespace) (c ∷ s) ≡ ([], c ∷ s) ∷ []
unfolding ends many_ends
spaces_end c s h = rw h refl

label-not_space : (c : ℕ) → is_label_char c ≡ true → is_whitespace c ≡ false
unfolding is_whitespace
label-not_space c h = ground arith

two_braces : (s : Text) → ends (rep 2 2 (λ c. c == b'{')) (b'{' ∷ b'{' ∷ s) ≡ ([], s) ∷ []
unfolding ends rep_ends
two_braces s = refl

-- A sequence whose first part matches in one way that holds nothing.
seq-Starts :
    (a b : Rx) (s t : Text) (g : Found)
    → ends a s ≡ ([], t) ∷ []
    → Starts (ends b t) g
    → Starts (ends (seq a b) s) g
unfolding ends
seq-Starts a b s t g e starts =
    Starts-flat_map (λ f. join_groups f.0 (ends b f.1)) (ends a s) ([], t) g ([], e)
      (Starts-map (λ f. ([] ++ f.0, f.1)) (ends b t) g starts)

abbrev pub token_text : Text → Text → Text → Text
token_text lab sfx rest = b'{' ∷ b'{' ∷ (lab ++ b'_' ∷ (sfx ++ b'}' ∷ b'}' ∷ rest))

pub braced-Starts :
    (lab sfx rest : Text)
    → IsLabel lab
    → IsSuffix sfx
    → Starts (ends braced_placeholder_rx (token_text lab sfx rest)) (lab ∷ sfx ∷ [], rest)
unfolding braced_placeholder_rx
braced-Starts [] sfx rest l x = absurd (omega (arith, l.nonempty))
braced-Starts (c ∷ lab) (a ∷ b ∷ d ∷ e ∷ f ∷ g ∷ []) rest l x =
    let sfx : Text = a ∷ b ∷ d ∷ e ∷ f ∷ g ∷ [] in
    let s : Text = c ∷ (lab ++ b'_' ∷ (sfx ++ b'}' ∷ b'}' ∷ rest)) in
    seq-Starts (rep 2 2 (λ c. c == b'{')) (seq (many is_whitespace) behind_braces) (b'{' ∷ b'{' ∷ s)
      s (((c ∷ lab) ∷ sfx ∷ []), rest) (two_braces s)
      (seq-Starts (many is_whitespace) behind_braces s s ((c ∷ lab) ∷ sfx ∷ [], rest)
        (spaces_end c (lab ++ b'_' ∷ (sfx ++ b'}' ∷ b'}' ∷ rest))
          (label-not_space c (ground (arith, l.chars))))
        (behind_braces-ends (c ∷ lab) sfx (b'}' ∷ rest) (sfx ∷ [], rest) l x.chars
          (behind_label-ends a b d e f g rest x.chars)))
braced-Starts lab sfx rest l x = absurd (omega arith)
