-- ===== src/Str/Laws.antt =====
-- Laws of the text operations on ASCII texts.
use mathlib.Core.List.{reverse, reverse-append, reverse-reverse}
use maskit_rs.Base.{
  ℕ, ◌≡◌, refl, ap, Bool, true, false, none, some, [], ◌∷◌, ◌++◌, Text, ◌==◌, if◌then◌else◌, length,
  all, arith,
}
use maskit_rs.Str.{
  utf8, as_bytes, byte_len, is_ascii, is_whitespace, trim_start_matches, trim_end_matches, trim,
  strip_prefix, strip_suffix, rsplit_once,
}

-- An ASCII text is its own bytes.
pub as_bytes_ascii : (s : Text) → all is_ascii s ≡ true → as_bytes s ≡ s
unfolding as_bytes utf8
as_bytes_ascii [] h = refl
as_bytes_ascii (c ∷ s) h = ground (arith, as_bytes_ascii s)

pub byte_len_ascii : (s : Text) → all is_ascii s ≡ true → byte_len s ≡ length s
unfolding byte_len
byte_len_ascii s h = ap length (as_bytes_ascii s h)

pub strip_prefix-append : (p s : Text) → strip_prefix p (p ++ s) ≡ some s
unfolding strip_prefix
strip_prefix-append [] s = refl
strip_prefix-append (c ∷ p) s = ground (arith, strip_prefix-append p s)

pub strip_suffix-append : (p s : Text) → strip_suffix p (s ++ p) ≡ some s
unfolding strip_suffix
strip_suffix-append p s =
    rw (reverse-append s p, strip_prefix-append (reverse p) (reverse s), reverse-reverse s)

-- A text whose first and last characters are no white space is its own trim.
pub trim_end_matches_last :
    (p : ℕ → Bool) (s : Text) (c : ℕ) → p c ≡ false → trim_end_matches p (s ++ c ∷ []) ≡ s ++ c ∷ []
unfolding trim_end_matches
trim_end_matches_last p [] c h = ground arith
trim_end_matches_last p (d ∷ []) c h = ground (arith, trim_end_matches_last p [] c h)
trim_end_matches_last p (d ∷ e ∷ s) c h = rw (trim_end_matches_last p (e ∷ s) c h)

pub trim_start_matches-all :
    (p : ℕ → Bool) (s : Text)
    → all (λ c. if p c then false else true) s ≡ true
    → trim_start_matches p s ≡ s
unfolding trim_start_matches
trim_start_matches-all p [] h = refl
trim_start_matches-all p (c ∷ s) h = ground arith

pub trim_end_matches-all :
    (p : ℕ → Bool) (s : Text)
    → all (λ c. if p c then false else true) s ≡ true
    → trim_end_matches p s ≡ s
unfolding trim_end_matches
trim_end_matches-all p [] h = refl
trim_end_matches-all p (c ∷ []) h = ground arith
trim_end_matches-all p (c ∷ d ∷ s) h =
    let ih : trim_end_matches p (d ∷ s) ≡ d ∷ s = trim_end_matches-all p (d ∷ s) (ground arith) in
    rw ih

pub trim-all : (s : Text) → all (λ c. if is_whitespace c then false else true) s ≡ true → trim s ≡ s
unfolding trim
trim-all s h =
    rw (trim_start_matches-all is_whitespace s h) (trim_end_matches-all is_whitespace s h)

-- The last separator is found behind any text, if the rest holds none.
pub rsplit_once_absent :
    (d : ℕ) (s : Text) → all (λ c. if c == d then false else true) s ≡ true → rsplit_once d s ≡ none
unfolding rsplit_once
rsplit_once_absent d [] h = refl
rsplit_once_absent d (c ∷ s) h = ground (arith, rsplit_once_absent d s)

pub rsplit_once-append :
    (d : ℕ) (a b : Text)
    → all (λ c. if c == d then false else true) b ≡ true
    → rsplit_once d (a ++ d ∷ b) ≡ some (a, b)
unfolding rsplit_once
rsplit_once-append d [] b h = ground (arith, rsplit_once_absent d b h)
rsplit_once-append d (c ∷ a) b h = rw (rsplit_once-append d a b h)
