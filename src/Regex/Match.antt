-- ===== src/Regex/Match.antt =====
-- `is_match` and `find` in terms of the relation.
use maskit_rs.Base.{
  ℕ, zero, suc, ◌≡◌, ◌≤◌, refl, sym, ap, ◌∙◌, Bool, true, false, [], ◌∷◌, ◌++◌, List, Text, ◌⊎◌,
  inl, inr, length, all, arith, some, none, append_assoc, ◌==◌, Bool-cases, Option-cases,
}
use maskit_rs.Regex.{Rx, seq, alt, rep, char, Found, ends, match_here, matches_here, is_match, find}
use maskit_rs.Regex.Laws.{
  Reps, stop, further, next, Manys, done, again, Parse, empty, at_end, reps, manys, both, left,
  right, held, HasEnd, Parse-HasEnd, HasEnd-Parse,
}

pub Reps-word :
    (p : ℕ → Bool) {lo hi : ℕ} {s t : Text}
    → Reps p lo hi s t
    → (w : Text) × (s ≡ w ++ t) × (all p w ≡ true) × (lo ≤ length w) × (length w ≤ hi)
Reps-word p (stop) = ([], refl, refl, omega arith, omega arith)
Reps-word p (further {c = c} e r) =
    let (w, q, h, k, m) = Reps-word p r in
    (c ∷ w, ap (◌∷◌ c) q, ground arith, omega arith, omega arith)
Reps-word p (next {c = c} e r) =
    let (w, q, h, k, m) = Reps-word p r in
    (c ∷ w, ap (◌∷◌ c) q, ground arith, omega arith, omega arith)

pub word-Reps :
    (p : ℕ → Bool) (lo hi : ℕ) (w t : Text)
    → all p w ≡ true
    → lo ≤ length w
    → length w ≤ hi
    → Reps p lo hi (w ++ t) t
word-Reps p zero hi [] t h k m = stop
word-Reps p (suc lo) hi [] t h k m = absurd (omega arith)
word-Reps p lo zero (c ∷ w) t h k m = absurd (omega arith)
word-Reps p zero (suc hi) (c ∷ w) t h k m =
    further (ground arith) (word-Reps p zero hi w t (ground arith) (omega arith) (omega arith))
word-Reps p (suc lo) (suc hi) (c ∷ w) t h k m =
    next (ground arith) (word-Reps p lo hi w t (ground arith) (omega arith) (omega arith))

pub Manys-word :
    (p : ℕ → Bool) {s t : Text} → Manys p s t → (w : Text) × (s ≡ w ++ t) × (all p w ≡ true)
Manys-word p done = ([], refl, refl)
Manys-word p (again {c = c} e r) =
    let (w, q, h) = Manys-word p r in (c ∷ w, ap (◌∷◌ c) q, ground arith)

-- A match takes a beginning of the text.
pub Parse-word : {r : Rx} {s t : Text} → Parse r s t → (w : Text) × (s ≡ w ++ t)
Parse-word empty = ([], refl)
Parse-word at_end = ([], refl)
Parse-word (reps {p = p} r) = let (w, q, _, _, _) = Reps-word p r in (w, q)
Parse-word (manys {p = p} r) = let (w, q, _) = Manys-word p r in (w, q)
Parse-word (both {v = v} x y) =
    let (w, q) = Parse-word x in
    let (z, e) = Parse-word y in (w ++ z, q ∙ (ap (◌++◌ w) e ∙ sym (append_assoc w z v)))
Parse-word (left x) = Parse-word x
Parse-word (right x) = Parse-word x
Parse-word (held x) = Parse-word x

matches_here-HasEnd :
    (r : Rx) (s t : Text) (fs : List Found) → ends r s ≡ fs → HasEnd t fs → matches_here r s ≡ true
unfolding matches_here match_here
matches_here-HasEnd r s t [] e h = absurd h
matches_here-HasEnd r s t (f ∷ fs) e h = rw (e, matches_here, match_here)

pub Parse-matches_here : {r : Rx} {s t : Text} → Parse r s t → matches_here r s ≡ true
Parse-matches_here {r} {s} {t} x = matches_here-HasEnd r s t (ends r s) refl (Parse-HasEnd x)

match_here-Parse_of :
    (r : Rx) (s : Text) (fs : List Found) {f : Found}
    → ends r s ≡ fs
    → match_here r s ≡ some f
    → Parse r s f.1
unfolding match_here
match_here-Parse_of r s [] e h = let k : none ≡ some _ = rw (e, match_here) at h in cc
match_here-Parse_of r s (g ∷ fs) {f} e h = HasEnd-Parse r s f.1 (rw e (inl (ground arith)))

pub match_here-Parse : (r : Rx) (s : Text) {f : Found} → match_here r s ≡ some f → Parse r s f.1
match_here-Parse r s h = match_here-Parse_of r s (ends r s) refl h

matches_here-Parse_of :
    (r : Rx) (s : Text) (fs : List Found)
    → ends r s ≡ fs
    → matches_here r s ≡ true
    → (t : Text) × Parse r s t
unfolding matches_here match_here
matches_here-Parse_of r s [] e h =
    let k : false ≡ true = rw (e, matches_here, match_here) at h in cc
matches_here-Parse_of r s (g ∷ fs) e h = (g.1, HasEnd-Parse r s g.1 (rw e (inl refl)))

-- `is_match` finds a match wherever one stands.
pub is_match-Parse : {r : Rx} {s t : Text} (p : Text) → Parse r s t → is_match r (p ++ s) ≡ true
unfolding is_match
is_match-Parse {s = []} [] x = Parse-matches_here x
is_match-Parse {s = c ∷ s} [] x = ground (arith, Parse-matches_here x)
is_match-Parse (d ∷ p) x = ground (arith, is_match-Parse p x)

-- Where `is_match` holds, a match stands somewhere.
pub Parse-is_match :
    (r : Rx) (s : Text) → is_match r s ≡ true → (p b t : Text) × (s ≡ p ++ b) × Parse r b t
unfolding is_match
Parse-is_match r [] h =
    let (t, x) = matches_here-Parse_of r [] (ends r []) refl h in ([], [], t, refl, x)
Parse-is_match r (c ∷ s) h = elim (Bool-cases (matches_here r (c ∷ s))) [
  | inl e ↦
      let (t, x) = matches_here-Parse_of r (c ∷ s) (ends r (c ∷ s)) refl e in
      ([], c ∷ s, t, refl, x)
  | inr e ↦
      let (p, b, t, q, x) = Parse-is_match r s (ground arith) in (c ∷ p, b, t, ap (◌∷◌ c) q, x)
]

-- What `find` returns: the text is what stands before the match, then the match.
pub find-Parse :
    (r : Rx) (s : Text) {before : Text} {f : Found}
    → find r s ≡ some (before, f)
    → (b : Text) × (s ≡ before ++ b) × Parse r b f.1
unfolding find
find-Parse r [] {before} {f} h = elim (Option-cases (match_here r [])) [
  | inl e ↦ absurd (ground arith)
  | inr (g, e) ↦ ([], ground arith, match_here-Parse r [] {f = f} (ground arith))
]
find-Parse r (c ∷ s) {before} {f} h = elim (Option-cases (match_here r (c ∷ s))) [
  | inr (g, e) ↦ (c ∷ s, ground arith, match_here-Parse r (c ∷ s) {f = f} (ground arith))
  | inl e ↦ elim (Option-cases (find r s)) [
    | inl e' ↦ absurd (ground arith)
    | inr (g, e') ↦
        let (b, q, x) = find-Parse r s {before = g.0} {f = g.1} e' in
        (b, ground arith, let k : g.1 ≡ f = ground arith in rw (← k) x)
  ]
]

-- Inversion, pattern by pattern.
pub seq_inv : {a b : Rx} {s v : Text} → Parse (seq a b) s v → (t : Text) × Parse a s t × Parse b t v
seq_inv (both {t = t} x y) = (t, x, y)

pub alt_inv : {a b : Rx} {s t : Text} → Parse (alt a b) s t → Parse a s t ⊎ Parse b s t
alt_inv (left x) = inl x
alt_inv (right x) = inr x

pub rep_inv : {lo hi : ℕ} {p : ℕ → Bool} {s t : Text} → Parse (rep lo hi p) s t → Reps p lo hi s t
rep_inv (reps r) = r

pub char_inv : (c : ℕ) {s t : Text} → Parse (char c) s t → s ≡ c ∷ t
char_inv c {s} {t} x = of_word (Reps-word (λ d. d == c) (rep_inv x))
  where
    of_word :
        (w : Text) × (s ≡ w ++ t) × (all (λ d. d == c) w ≡ true) × (1 ≤ length w) × (length w ≤ 1)
        → s ≡ c ∷ t
    of_word ([], q, h, k, m) = absurd (omega arith)
    of_word (d ∷ [], q, h, k, m) = ground arith
    of_word (d ∷ e ∷ w, q, h, k, m) = absurd (omega arith)

pub Parse-char : (c : ℕ) (t : Text) → Parse (char c) (c ∷ t) t
Parse-char c t =
    reps (word-Reps (λ d. d == c) 1 1 (c ∷ []) t (ground arith) (omega arith) (omega arith))

pub Parse-rep :
    (p : ℕ → Bool) (lo hi : ℕ) (w t : Text)
    → all p w ≡ true
    → lo ≤ length w
    → length w ≤ hi
    → Parse (rep lo hi p) (w ++ t) t
Parse-rep p lo hi w t h k m = reps (word-Reps p lo hi w t h k m)
