-- ===== src/Placeholder/Generate.antt =====
-- src/mask/placeholder.rs, `rand_suffix` and `new_token`: the twenty attempts.
use maskit_rs.Base.{
  ℕ, zero, suc, ◌+◌, ◌<◌, ◌≡◌, ◌≤◌, refl, ap, Bool, true, false, [], ◌∷◌, Text, ◌⊎◌, inl, inr,
  length, all, get_or, arith, some, Bool-cases,
}
use native.Mathlib.Decide.{dec_le}
use maskit_rs.Str.{Casing}
use maskit_rs.Placeholder.{
  token_alphabet, is_token_char, format_token, safe_label, suffix_indexable, parse_canonical, Draws,
  rand_from, rand_suffix, new_token_from, new_token,
}
use maskit_rs.Placeholder.Label.{safe_label-IsLabel}
use maskit_rs.Placeholder.Format.{IsSuffix, suffix_indexable-IsSuffix}
use maskit_rs.Placeholder.Strict.{parse_canonical-format_token}

pub all-get_or :
    (p : ℕ → Bool) (xs : Text) (i : ℕ) → all p xs ≡ true → i < length xs → p (get_or xs i 0) ≡ true
all-get_or p [] i h k = absurd (omega arith)
all-get_or p (x ∷ xs) zero h k = ground arith
all-get_or p (x ∷ xs) (suc i) h k = all-get_or p xs i (ground arith) (omega arith)

pub alphabet-all : all is_token_char token_alphabet ≡ true
unfolding is_token_char
alphabet-all = refl

module _ (d : Draws) where
  rand_from-all : (k i j : ℕ) → all is_token_char (rand_from d k i j) ≡ true
  unfolding rand_from
  rand_from-all zero i j = refl
  rand_from-all (suc k) i j = ground (
    arith,
    all-get_or is_token_char token_alphabet (d.gen_range 19 i j) alphabet-all
        (d.gen_range_lt 18 i j),
    rand_from-all k i (j + 1),
  )

  length-rand_from : (k i j : ℕ) → length (rand_from d k i j) ≡ k
  unfolding rand_from
  length-rand_from zero i j = refl
  length-rand_from (suc k) i j = ap suc (length-rand_from k i (j + 1))

  -- A drawn suffix is six consonants.
  pub rand_suffix-IsSuffix : (i : ℕ) → IsSuffix (rand_suffix d i)
  unfolding rand_suffix
  rand_suffix-IsSuffix i = record { six = length-rand_from 6 i 0; chars = rand_from-all 6 i 0 }

  module _ (taken : Text → Text → Bool) (lab : Text) where
    -- The attempt `i` is refused.
    abbrev pub Refused : ℕ → Type 0
    Refused i = taken (format_token lab (rand_suffix d i)) (rand_suffix d i) ≡ true

    new_token_from-free :
        (k i : ℕ)
        → (n : ℕ) × (new_token_from d taken lab k i ≡ format_token lab (rand_suffix d n))
          × ((taken (format_token lab (rand_suffix d n)) (rand_suffix d n) ≡ false)
              ⊎ ((m : ℕ) → i ≤ m → m < i + k → Refused m))
    unfolding new_token_from
    new_token_from-free zero i = (i, refl, inr (λ m h k. absurd (omega arith)))
    new_token_from-free (suc k) i =
        elim (Bool-cases (taken (format_token lab (rand_suffix d i)) (rand_suffix d i))) [
          | inr free ↦ (i, rw free, inl free)
          | inl busy ↦
              let (n, e, rest) = new_token_from-free k (i + 1) in
              (
                n,
                rw busy e,
                elim rest [
                  | inl free ↦ inl free
                  | inr all_busy ↦ inr (λ m h l. elim (dec_le m i) [
                    | yes b ↦ let q : i ≡ m = omega arith in rw (← q) busy
                    | no b ↦ all_busy m (omega arith) (omega arith)
                  ])
                ],
              )
        ]

  -- Whatever label is asked for, a new token carries the safe label and one of the drawn suffixes,
  -- six consonants that the suffix index accepts; the strict parser reads both back; and the token
  -- and its suffix are free, unless all of the twenty drawn suffixes were taken.
  pub new_token_lem :
      (u : Casing) (label : Text) (taken : Text → Text → Bool)
      → (n : ℕ) × (new_token d u label taken ≡ format_token (safe_label u label) (rand_suffix d n))
        × (parse_canonical u (new_token d u label taken)
            ≡ some (safe_label u label, rand_suffix d n))
        × (suffix_indexable (rand_suffix d n) ≡ true)
        × ((taken (new_token d u label taken) (rand_suffix d n) ≡ false)
            ⊎ ((m : ℕ) → m < 20 → Refused taken (safe_label u label) m))
  unfolding new_token
  new_token_lem u label taken =
      let lab = safe_label u label in
      let (n, e, rest) = new_token_from-free taken lab 20 0 in
      let x = rand_suffix-IsSuffix n in
      (
        n,
        e,
        rw e (parse_canonical-format_token u lab (rand_suffix d n) (safe_label-IsLabel u label) x),
        suffix_indexable-IsSuffix (rand_suffix d n) x,
        elim rest [ inl free ↦ inl (rw e free) | inr busy ↦ inr (λ m h. busy m (omega arith) h) ],
      )
