-- ===== src/Engine/Find.antt =====
-- src/mask/engine.rs, `restore_pass`: the matches in a text of tokens and plain text.
use maskit_rs.Base.{
  ℕ, ◌-◌, ◌≡◌, refl, ap, ◌∙◌, Bool, true, false, not, none, some, Text, [], ◌∷◌, ◌++◌, append_assoc,
  length, length-append, take, drop, all, ◌==◌, arith,
}
use maskit_rs.Regex.{Rx, Found, ends, match_here, find, rep_ends}
use maskit_rs.Placeholder.{braced_placeholder_rx, format_token}
use maskit_rs.Placeholder.Label.{IsLabel}
use maskit_rs.Placeholder.Format.{IsSuffix}
use maskit_rs.Engine.Matches.{capture}
use maskit_rs.Engine.Token.{token_text, braced-Starts}
use maskit_rs.Engine.Token.Suffix.{Starts, take-front}

-- Text without an opening brace.
abbrev pub no_brace : Text → Bool
no_brace s = all (λ c. not (c == b'{')) s

pub format_token-append :
    (lab sfx rest : Text) → format_token lab sfx ++ rest ≡ token_text lab sfx rest
unfolding format_token
format_token-append lab sfx rest = simp append_assoc

match_here-Starts : (r : Rx) (s : Text) (g : Found) → Starts (ends r s) g → match_here r s ≡ some g
unfolding match_here
match_here-Starts r s g (more, e) = rw (e, match_here) refl

match_here-plain :
    (c : ℕ) (s : Text) → (c == b'{') ≡ false → match_here braced_placeholder_rx (c ∷ s) ≡ none
unfolding match_here braced_placeholder_rx ends rep_ends
match_here-plain c s h = ground arith

match_here-nil : match_here braced_placeholder_rx [] ≡ none
unfolding match_here braced_placeholder_rx ends rep_ends
match_here-nil = refl

module _ (r : Rx) where
  find-here : (s : Text) (g : Found) → match_here r s ≡ some g → find r s ≡ some ([], g)
  unfolding find
  find-here [] g h = rw (h, find) refl
  find-here (c ∷ s) g h = rw (h, find) refl

  find-later :
      (c : ℕ) (s before : Text) (g : Found)
      → match_here r (c ∷ s) ≡ none
      → find r s ≡ some (before, g)
      → find r (c ∷ s) ≡ some (c ∷ before, g)
  unfolding find
  find-later c s before g h e = rw (h, find) (rw (e, find) refl)

  find-never :
      (c : ℕ) (s : Text) → match_here r (c ∷ s) ≡ none → find r s ≡ none → find r (c ∷ s) ≡ none
  unfolding find
  find-never c s h e = rw (h, find) (rw (e, find) refl)

  find-nil : match_here r [] ≡ none → find r [] ≡ none
  unfolding find
  find-nil h = rw (h, find) refl

pub find-no_brace : (s : Text) → no_brace s ≡ true → find braced_placeholder_rx s ≡ none
find-no_brace [] h = find-nil braced_placeholder_rx match_here-nil
find-no_brace (c ∷ s) h =
    find-never braced_placeholder_rx c s (match_here-plain c s (ground arith))
      (find-no_brace s (ground arith))

pub find-token :
    (front lab sfx rest : Text)
    → no_brace front ≡ true
    → IsLabel lab
    → IsSuffix sfx
    → find braced_placeholder_rx (front ++ token_text lab sfx rest)
      ≡ some (front, (lab ∷ sfx ∷ [], rest))
find-token [] lab sfx rest h l x =
    find-here braced_placeholder_rx (token_text lab sfx rest) (lab ∷ sfx ∷ [], rest)
      (match_here-Starts braced_placeholder_rx (token_text lab sfx rest) (lab ∷ sfx ∷ [], rest)
        (braced-Starts lab sfx rest l x))
find-token (c ∷ front) lab sfx rest h l x =
    find-later braced_placeholder_rx c (front ++ token_text lab sfx rest) front
      (lab ∷ sfx ∷ [], rest) (match_here-plain c (front ++ token_text lab sfx rest) (ground arith))
      (find-token front lab sfx rest (ground arith) l x)

drop-append : (w t : Text) → drop (length w) (w ++ t) ≡ t
drop-append [] t = refl
drop-append (c ∷ w) t = drop-append w t

captured :
    (front tok rest : Text)
    → take
        (length (front ++ (tok ++ rest)) - length front - length rest)
        (drop (length front) (front ++ (tok ++ rest)))
      ≡ tok
captured front tok rest =
    ap (λ t. take (length (front ++ (tok ++ rest)) - length front - length rest) t)
      (drop-append front (tok ++ rest))
    ∙ (ap (λ n. take n (tok ++ rest)) (omega (arith, length-append front (tok ++ rest)))
        ∙ take-front tok rest)

-- What is captured is the token, behind the plain text.
pub capture-token :
    (prefix front lab sfx rest : Text)
    → capture prefix (front ++ token_text lab sfx rest) (front, (lab ∷ sfx ∷ [], rest)) ≡ record {
      before = front;
      whole = format_token lab sfx;
      groups = lab ∷ sfx ∷ [];
      prefix = prefix ++ front;
    }
unfolding capture
capture-token prefix front lab sfx rest =
    rw (← format_token-append lab sfx rest) (rw (captured front (format_token lab sfx) rest) refl)
