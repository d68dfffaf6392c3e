-- ===== src/Placeholder/Derive.antt =====
-- src/mask/placeholder.rs, `deterministic_suffix`: the loop over the candidates.
use native.Mathlib.Decide.{ℕ_discrete}
use maskit_rs.Base.{
  ℕ, zero, suc, ◌+◌, ◌%◌, ◌^◌, ◌<◌, ◌≡◌, ◌≤◌, ◌∙◌, refl, true, false, [], ◌∷◌, Text, List, inl, inr,
  length, all, map, take, get_or, arith, some, contains, Bool-cases, length-take,
}
use maskit_rs.Placeholder.{
  token_alphabet, is_token_char, Sha256, derived_suffix, derive_from, deterministic_suffix,
}
use maskit_rs.Placeholder.Format.{IsSuffix}
use maskit_rs.Placeholder.Generate.{all-get_or, alphabet-all}

letter : ℕ → ℕ
letter b = get_or token_alphabet (b % length token_alphabet) 0

all-letters : (bs : List ℕ) → all is_token_char (map letter bs) ≡ true
unfolding letter
all-letters [] = refl
all-letters (b ∷ bs) = ground (
  arith,
  all-get_or is_token_char token_alphabet (b % 19) alphabet-all (omega arith),
  all-letters bs,
)

length-letters : (bs : List ℕ) → length (map letter bs) ≡ length bs
length-letters [] = refl
length-letters (b ∷ bs) = omega (arith, length-letters bs)

module _ (h : Sha256) (orig : Text) where
  pub derived_suffix-IsSuffix : (counter : ℕ) → IsSuffix (derived_suffix h orig counter)
  unfolding derived_suffix letter
  derived_suffix-IsSuffix counter = record {
    six = omega (
      arith,
      length-letters (take 6 (h.digest _)),
      length-take 6 (h.digest _),
      h.length-digest _,
    );
    chars = all-letters (take 6 (h.digest _));
  }

  module _ (used : List Text) where
    abbrev pub Used : ℕ → Type 0
    Used counter = contains used (derived_suffix h orig counter) ≡ true

    derive_from_busy :
        (fuel counter : ℕ)
        → Used counter
        → counter + 1 < 2 ^ 32
        → derive_from h orig (suc fuel) counter used ≡ derive_from h orig fuel (counter + 1) used
    unfolding derive_from
    derive_from_busy fuel counter busy b =
        let step : (counter + 1) % 2 ^ 32 ≡ counter + 1 = omega arith in rw (busy, step)

    derive_from-first :
        (fuel counter m : ℕ)
        → contains used (derived_suffix h orig m) ≡ false
        → counter ≤ m
        → m < counter + fuel
        → m < 2 ^ 32
        → (n : ℕ) × (derive_from h orig fuel counter used
            ≡ some (derived_suffix h orig n, derived_suffix h orig n ∷ used))
          × (contains used (derived_suffix h orig n) ≡ false)
          × (n ≤ m)
          × ((k : ℕ) → counter ≤ k → k < n → Used k)
    derive_from-first zero counter m free a b c = absurd (omega arith)
    derive_from-first (suc fuel) counter m free a b c =
        elim (Bool-cases (contains used (derived_suffix h orig counter))) [
          | inr now ↦ (counter, unfold derive_from in rw now, now, a, λ k x y. absurd (omega arith))
          | inl busy ↦ elim (ℕ_discrete counter m) [
            | yes e ↦
                absurd
                  (let q : contains used (derived_suffix h orig m) ≡ true = rw (← e) busy in cc)
            | no ne ↦
                let (n, e, f, g, all_used) =
                  derive_from-first fuel (counter + 1) m free (omega arith) (omega arith) c in
                (
                  n,
                  derive_from_busy fuel counter busy (omega arith) ∙ e,
                  f,
                  g,
                  λ k x y. elim (ℕ_discrete counter k) [
                    | yes q ↦ rw (← q) busy
                    | no q ↦ all_used k (omega arith) y
                  ],
                )
          ]
        ]

  -- If the candidate of some counter below 2^32 is free, the loop ends within that many rounds more:
  -- it returns the candidate of the first free counter, six consonants that the set did not hold,
  -- and the set with exactly this suffix added.
  pub deterministic_suffix_lem :
      (used : List Text) (m fuel : ℕ)
      → contains used (derived_suffix h orig m) ≡ false
      → m < fuel
      → m < 2 ^ 32
      → (n : ℕ) × (deterministic_suffix h orig fuel used
          ≡ some (derived_suffix h orig n, derived_suffix h orig n ∷ used))
        × (contains used (derived_suffix h orig n) ≡ false)
        × IsSuffix (derived_suffix h orig n)
        × (n ≤ m)
        × ((k : ℕ) → k < n → Used used k)
  unfolding deterministic_suffix
  deterministic_suffix_lem used m fuel free a b =
      let (n, e, f, g, first) =
        derive_from-first used fuel 0 m free (omega arith) (omega arith) b in
      (n, e, f, derived_suffix-IsSuffix n, g, λ k x. first k (omega arith) x)
