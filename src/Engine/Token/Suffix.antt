-- ===== src/Engine/Token/Suffix.antt =====
-- src/mask/placeholder.rs, `braced_placeholder_rx`: the suffix of a token and the braces behind it.
use mathlib.Core.List.{flat_map}
use mathlib.Core.Path.{subst}
use maskit_rs.Base.{
  ℕ, ◌-◌, ◌≡◌, refl, ap, ◌∙◌, inl, inr, Bool-cases, Bool, true, false, Text, List, [], ◌∷◌, ◌++◌,
  map, length, length-append, take, all, ◌==◌, arith,
}
use maskit_rs.Str.{is_whitespace}
use maskit_rs.Regex.{
  Rx, seq, rep, many, group, Found, ends, rep_ends, many_ends, fold_case, join_groups,
}
use maskit_rs.Placeholder.{is_token_char, is_hex_char, suffix_pat}

module _ (p : ℕ → Bool) (a b c d e f : ℕ) (rest : Text) where
  pub rep_ends-six :
      all p (a ∷ b ∷ c ∷ d ∷ e ∷ f ∷ []) ≡ true
      → rep_ends 6 6 p (a ∷ b ∷ c ∷ d ∷ e ∷ f ∷ rest) ≡ rest ∷ []
  unfolding rep_ends
  rep_ends-six h = ground arith

  pub rep_ends-none :
      all p (a ∷ b ∷ c ∷ d ∷ e ∷ f ∷ []) ≡ false
      → rep_ends 6 6 p (a ∷ b ∷ c ∷ d ∷ e ∷ f ∷ rest) ≡ []
  unfolding rep_ends
  rep_ends-none h = ground arith

pub fold_case-all : (p : ℕ → Bool) (s : Text) → all p s ≡ true → all (fold_case p) s ≡ true
unfolding fold_case
fold_case-all p [] h = refl
fold_case-all p (c ∷ s) h = ground (arith, fold_case-all p s)

-- Behind the underscore: six letters of the alphabet, read by one or by both branches of the class.
pub suffix_ends :
    (a b c d e f : ℕ) (rest : Text)
    → all is_token_char (a ∷ b ∷ c ∷ d ∷ e ∷ f ∷ []) ≡ true
    → (more : List Found) × (ends (suffix_pat fold_case) (a ∷ b ∷ c ∷ d ∷ e ∷ f ∷ rest)
        ≡ ([], rest) ∷ more)
unfolding ends
suffix_ends a b c d e f rest h =
    let second =
      rep_ends-six (fold_case is_token_char) a b c d e f rest
        (fold_case-all is_token_char (a ∷ b ∷ c ∷ d ∷ e ∷ f ∷ []) h) in
    elim (Bool-cases (all (fold_case is_hex_char) (a ∷ b ∷ c ∷ d ∷ e ∷ f ∷ []))) [
      | inl hex ↦ (
        ([], rest) ∷ [],
        rw (rep_ends-six (fold_case is_hex_char) a b c d e f rest hex) (rw second refl),
      )
      | inr no_hex ↦
          ([], rw (rep_ends-none (fold_case is_hex_char) a b c d e f rest no_hex) (rw second refl))
    ]

abbrev pub closing : Rx
closing = seq (many is_whitespace) (rep 2 2 (λ c. c == b'}'))

abbrev pub behind_label : Rx
behind_label = seq (group (suffix_pat fold_case)) closing

pub closing-ends : (rest : Text) → ends closing (b'}' ∷ b'}' ∷ rest) ≡ ([], rest) ∷ []
unfolding ends many_ends rep_ends flat_map is_whitespace
closing-ends rest = refl

-- The preferred match is the first.
abbrev pub Starts : {A : Type 0} → List A → A → Type 0
Starts xs x = (more : List _) × (xs ≡ x ∷ more)

pub Starts-map :
    {A B : Type 0} (g : A → B) (xs : List A) (x : A) → Starts xs x → Starts (map g xs) (g x)
Starts-map g xs x (more, e) = (map g more, rw e refl)

pub Starts-flat_map :
    {A B : Type 0} (f : A → List B) (xs : List A) (x : A) (y : B)
    → Starts xs x
    → Starts (f x) y
    → Starts (flat_map f xs) y
unfolding flat_map
Starts-flat_map f xs x y (more, e) (more', e') = (more' ++ flat_map f more, rw e (rw e' refl))

pub take-append : (w t : Text) → take (length w) (w ++ t) ≡ w
take-append [] t = refl
take-append (c ∷ w) t = ap (◌∷◌ c) (take-append w t)

pub take-front : (w t : Text) → take (length (w ++ t) - length t) (w ++ t) ≡ w
take-front w t = ap (λ n. take n (w ++ t)) (omega (arith, length-append w t)) ∙ take-append w t

pub behind_label-ends :
    (a b c d e f : ℕ) (rest : Text)
    → all is_token_char (a ∷ b ∷ c ∷ d ∷ e ∷ f ∷ []) ≡ true
    → Starts
        (ends behind_label (a ∷ b ∷ c ∷ d ∷ e ∷ f ∷ b'}' ∷ b'}' ∷ rest))
        ((a ∷ b ∷ c ∷ d ∷ e ∷ f ∷ []) ∷ [], rest)
unfolding ends
behind_label-ends a b c d e f rest h =
    let s : Text = a ∷ b ∷ c ∷ d ∷ e ∷ f ∷ b'}' ∷ b'}' ∷ rest in
    let held : Found → Found = λ g. (take (length s - length g.1) s ∷ g.0, g.1) in
    Starts-flat_map (λ g. join_groups g.0 (ends closing g.1))
      (map held (ends (suffix_pat fold_case) s))
      ((a ∷ b ∷ c ∷ d ∷ e ∷ f ∷ []) ∷ [], b'}' ∷ b'}' ∷ rest)
      ((a ∷ b ∷ c ∷ d ∷ e ∷ f ∷ []) ∷ [], rest)
      (subst (Starts (map held (ends (suffix_pat fold_case) s)))
        (ap (λ x. (x ∷ [], b'}' ∷ b'}' ∷ rest))
          (take-front (a ∷ b ∷ c ∷ d ∷ e ∷ f ∷ []) (b'}' ∷ b'}' ∷ rest)))
        (Starts-map held (ends (suffix_pat fold_case) s) ([], b'}' ∷ b'}' ∷ rest)
          (suffix_ends a b c d e f (b'}' ∷ b'}' ∷ rest) h)))
      ([], rw (closing-ends rest) refl)
