-- ===== src/Placeholder/Label.antt =====
-- src/mask/placeholder.rs, `safe_label` and the alphabet: the characters of labels and suffixes.
use maskit_rs.Base.{
  ℕ, ◌≡◌, ◌≤◌, Bool, true, false, [], ◌∷◌, Text, ◌==◌, if◌then◌else◌, length, take, all, filter,
  arith, refl, all_mono, map_id_all, all-filter, all-take, length-take, filter-all, take_whole,
}
use maskit_rs.Str.{
  Casing, is_ascii, is_whitespace, to_ascii_uppercase, to_ascii_lowercase, is_ascii_lowercase,
}
use maskit_rs.Placeholder.{is_label_char, is_token_char, safe_label}

abbrev pub not_space : ℕ → Bool
not_space c = if is_whitespace c then false else true

abbrev pub not_underscore : ℕ → Bool
not_underscore c = if c == b'_' then false else true

is_token_char-lower : (c : ℕ) → is_token_char c ≡ true → is_ascii_lowercase c ≡ true
unfolding is_token_char
is_token_char-lower c h = ground arith

lower-plain :
    (c : ℕ)
    → is_ascii_lowercase c ≡ true
    → (not_space c ≡ true)
      × (not_underscore c ≡ true)
      × (is_ascii c ≡ true)
      × (to_ascii_lowercase c ≡ c)
unfolding is_whitespace to_ascii_lowercase
lower-plain c h = (ground arith, ground arith, ground arith, ground arith)

label-plain :
    (c : ℕ)
    → is_label_char c ≡ true
    → (not_space c ≡ true) × (is_ascii c ≡ true) × (to_ascii_uppercase c ≡ c)
unfolding is_whitespace to_ascii_uppercase
label-plain c h = (ground arith, ground arith, ground arith)

-- A suffix of six consonants: its characters are lower case letters, none of them an underscore.
module _ (s : Text) (h : all is_token_char s ≡ true) where
  pub suffix-not_space : all not_space s ≡ true
  suffix-not_space =
      all_mono is_token_char not_space s (λ c e. (lower-plain c (is_token_char-lower c e)).0) h

  pub suffix-not_underscore : all not_underscore s ≡ true
  suffix-not_underscore =
      all_mono is_token_char not_underscore s (λ c e. (lower-plain c (is_token_char-lower c e)).1) h

  pub suffix-is_ascii : all is_ascii s ≡ true
  suffix-is_ascii =
      all_mono is_token_char is_ascii s (λ c e. (lower-plain c (is_token_char-lower c e)).2) h

  pub to_lowercase-suffix : (u : Casing) → u.to_lowercase s ≡ s
  to_lowercase-suffix u = rw (u.lower_ascii s suffix-is_ascii) (
      map_id_all is_token_char to_ascii_lowercase s
        (λ c e. (lower-plain c (is_token_char-lower c e)).3) h)

module _ (s : Text) (h : all is_label_char s ≡ true) where
  pub label-not_space : all not_space s ≡ true
  label-not_space = all_mono is_label_char not_space s (λ c e. (label-plain c e).0) h

  pub to_uppercase-label : (u : Casing) → u.to_uppercase s ≡ s
  to_uppercase-label u =
      rw (u.upper_ascii s (all_mono is_label_char is_ascii s (λ c e. (label-plain c e).1) h))
        (map_id_all is_label_char to_ascii_uppercase s (λ c e. (label-plain c e).2) h)

-- What a label of a token is.
pub record IsLabel (lab : Text) : Type 0 where
  pub nonempty : 1 ≤ length lab
  pub bounded : length lab ≤ 12
  pub chars : all is_label_char lab ≡ true

or_term : Text → Text
or_term t = elim t [ [] ↦ b'T' ∷ b'E' ∷ b'R' ∷ b'M' ∷ [] | c ∷ r ↦ c ∷ r ]

or_term-IsLabel : (t : Text) → length t ≤ 12 → all is_label_char t ≡ true → IsLabel (or_term t)
unfolding or_term
or_term-IsLabel [] h k = record { nonempty = omega arith; bounded = omega arith; chars = refl }
or_term-IsLabel (c ∷ t) h k = record { nonempty = omega arith; bounded = h; chars = k }

safe_label-or_term :
    (u : Casing) (label : Text)
    → safe_label u label ≡ or_term (take 12 (filter is_label_char (u.to_uppercase label)))
unfolding safe_label or_term
safe_label-or_term u label = refl

-- For every text, however it is written, `safe_label` gives one to twelve characters, each of them
-- an upper case ASCII letter or a digit.
pub safe_label-IsLabel : (u : Casing) (label : Text) → IsLabel (safe_label u label)
safe_label-IsLabel u label =
    let kept : Text = filter is_label_char (u.to_uppercase label) in
    rw (safe_label-or_term u label) (
      or_term-IsLabel (take 12 kept) (omega (arith, length-take 12 kept))
        (all-take is_label_char 12 kept (all-filter is_label_char (u.to_uppercase label))))

or_term_fixed : (t : Text) → 1 ≤ length t → or_term t ≡ t
unfolding or_term
or_term_fixed [] h = absurd (omega arith)
or_term_fixed (c ∷ t) h = refl

-- A label is its own safe label, so normalising twice changes nothing.
pub safe_label_fixed : (u : Casing) (lab : Text) → IsLabel lab → safe_label u lab ≡ lab
safe_label_fixed u lab v =
    rw
      (
        safe_label-or_term u lab,
        to_uppercase-label lab v.chars u,
        filter-all is_label_char lab v.chars,
        take_whole lab v.bounded,
      )
      (or_term_fixed lab v.nonempty)
