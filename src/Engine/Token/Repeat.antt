-- ===== src/Engine/Token/Repeat.antt =====
-- src/mask/placeholder.rs, `braced_placeholder_rx`: repetitions of word characters before an underscore.
use mathlib.Core.List.{flat_map}
use maskit_rs.Base.{
  ℕ, zero, suc, ◌≤◌, ◌≡◌, refl, sym, ap, ◌∙◌, true, false, not, ◌&&◌, Text, List, [], ◌∷◌, ◌++◌,
  append_assoc, append-nil, map, length, all, ◌==◌, arith,
}
use maskit_rs.Regex.{Found, rep_ends}
use maskit_rs.Placeholder.{is_word}

module _ {A B : Type 0} where
  pub flat_map-append :
      (f : A → List B) (xs ys : List A) → flat_map f (xs ++ ys) ≡ flat_map f xs ++ flat_map f ys
  unfolding flat_map
  flat_map-append f [] ys = refl
  flat_map-append f (x ∷ xs) ys =
      ap (◌++◌ (f x)) (flat_map-append f xs ys)
      ∙ sym (append_assoc (f x) (flat_map f xs) (flat_map f ys))

  pub flat_map-last :
      (f : A → List B) (xs : List A) (y : A) → flat_map f (xs ++ y ∷ []) ≡ flat_map f xs ++ f y
  unfolding flat_map
  flat_map-last f xs y =
      flat_map-append f xs (y ∷ []) ∙ ap (◌++◌ (flat_map f xs)) (append-nil (f y))

  pub flat_map-map :
      {C : Type 0} (f : B → List C) (g : A → B) (xs : List A)
      → flat_map f (map g xs) ≡ flat_map (λ x. f (g x)) xs
  unfolding flat_map
  flat_map-map f g [] = refl
  flat_map-map f g (x ∷ xs) = ap (◌++◌ (f (g x))) (flat_map-map f g xs)

-- What follows a repetition of word characters, where it has to begin with an underscore.
module _ (k : Text → List Found)
    (dead : (c : ℕ) (s : Text) → (c == b'_') ≡ false → k (c ∷ s) ≡ []) where
  abbrev pub PlainWord : Text → Type 0
  PlainWord w = all (λ c. is_word c && not (c == b'_')) w ≡ true

  pub word : (c : ℕ) (w : Text) → PlainWord (c ∷ w) → is_word c ≡ true
  word c w h = ground arith

  pub flat_map-rest :
      (hi : ℕ) (w z : Text)
      → PlainWord w
      → flat_map k (rep_ends zero hi is_word (w ++ b'}' ∷ z)) ≡ []
  unfolding flat_map rep_ends
  flat_map-rest zero [] z h = ground (arith, dead b'}' z refl)
  flat_map-rest zero (c ∷ w) z h = ground (arith, dead c (w ++ b'}' ∷ z))
  flat_map-rest (suc hi) [] z h = ground (arith, dead b'}' z refl)
  flat_map-rest (suc hi) (c ∷ w) z h = rw (word c w h) (
      flat_map-last k (rep_ends zero hi is_word (w ++ b'}' ∷ z)) (c ∷ (w ++ b'}' ∷ z))
      ∙ rw (flat_map-rest hi w z (ground arith)) (dead c (w ++ b'}' ∷ z) (ground arith)))

  pub flat_map-label :
      (lo hi : ℕ) (lab w z : Text)
      → PlainWord lab
      → PlainWord w
      → lo ≤ length lab
      → length lab ≤ hi
      → flat_map k (rep_ends lo hi is_word (lab ++ b'_' ∷ (w ++ b'}' ∷ z)))
        ≡ k (b'_' ∷ (w ++ b'}' ∷ z))
  unfolding flat_map rep_ends
  flat_map-label zero zero [] w z p q l h = append-nil (k (b'_' ∷ (w ++ b'}' ∷ z)))
  flat_map-label zero (suc hi) [] w z p q l h =
      flat_map-last k (rep_ends zero hi is_word (w ++ b'}' ∷ z)) (b'_' ∷ (w ++ b'}' ∷ z))
      ∙ rw (flat_map-rest hi w z q) refl
  flat_map-label (suc lo) hi [] w z p q l h = absurd (omega arith)
  flat_map-label lo zero (c ∷ lab) w z p q l h = absurd (omega arith)
  flat_map-label zero (suc hi) (c ∷ lab) w z p q l h = rw (word c lab p) (
      flat_map-last k (rep_ends zero hi is_word (lab ++ b'_' ∷ (w ++ b'}' ∷ z)))
        (c ∷ (lab ++ b'_' ∷ (w ++ b'}' ∷ z)))
      ∙ rw (flat_map-label zero hi lab w z (ground arith) q (omega arith) (omega arith)) (
          rw (dead c (lab ++ b'_' ∷ (w ++ b'}' ∷ z)) (ground arith))
            (append-nil (k (b'_' ∷ (w ++ b'}' ∷ z))))))
  flat_map-label (suc lo) (suc hi) (c ∷ lab) w z p q l h =
      rw (word c lab p) (flat_map-label lo hi lab w z (ground arith) q (omega arith) (omega arith))
