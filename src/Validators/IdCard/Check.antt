-- ===== src/Validators/IdCard/Check.antt =====
-- src/mask/validators.rs, `idcard18_ok_at`: what the check character of an identity card catches.
use maskit_rs.Base.{
  ℕ, zero, suc, ◌+◌, ◌-◌, ◌*◌, ◌%◌, ◌<◌, ◌≡◌, ◌≢◌, refl, sym, ◌∙◌, ap, true, some, List, [], ◌∷◌,
  ◌++◌, map, Text, ◌==◌, within, if◌then◌else◌, length, all, length-append, all-append, get_or,
  arith,
}
use maskit_rs.Str.{
  Casing, utf8, is_ascii, is_ascii_digit, split_at, starts_with, strip_prefix, to_digit,
}
use maskit_rs.Validators.Weighted.{weighted, weighted-map, places, place_of}
use maskit_rs.Validators.IdCard.{
  idcard_weights, idcard_codes, digit_or_zero, check_char, idcard18_body, idcard18_ok_at,
}

-- Behind ASCII characters a text splits at their number.
pub split_at-append :
    (body s : Text) → all is_ascii body ≡ true → split_at (length body) (body ++ s) ≡ some (body, s)
unfolding split_at utf8
split_at-append [] [] h = refl
split_at-append [] (c ∷ s) h = refl
split_at-append (c ∷ body) s h = ground (arith, split_at-append body s)

digits_ascii : (s : Text) → all is_ascii_digit s ≡ true → all is_ascii s ≡ true
digits_ascii [] h = refl
digits_ascii (c ∷ s) h = ground (arith, digits_ascii s)

-- The place of a check character.
code_place : ℕ → ℕ
code_place c = if c == b'1' then 0 else if c == b'0' then 1 else if c == b'X' then 2 else 60 - c

code_place_lem : (i : ℕ) → i < 11 → code_place (get_or idcard_codes i 0) ≡ i
unfolding places code_place
code_place_lem i h = place_of code_place idcard_codes 0 i refl h ∙ omega arith

-- A weight is invertible modulo 11.
weight_cancel :
    (w a b s t : ℕ)
    → within 1 10 w ≡ true
    → a < 10
    → b < 10
    → s + w * b ≡ t + w * a
    → s % 11 ≡ t % 11
    → a ≡ b
weight_cancel zero a b s t h ha hb e r = absurd cc
weight_cancel (suc zero) a b s t h ha hb e r = omega arith
weight_cancel (suc (suc zero)) a b s t h ha hb e r = omega arith
weight_cancel (suc (suc (suc zero))) a b s t h ha hb e r = omega arith
weight_cancel (suc (suc (suc (suc zero)))) a b s t h ha hb e r = omega arith
weight_cancel (suc (suc (suc (suc (suc zero))))) a b s t h ha hb e r = omega arith
weight_cancel (suc (suc (suc (suc (suc (suc zero)))))) a b s t h ha hb e r = omega arith
weight_cancel (suc (suc (suc (suc (suc (suc (suc zero))))))) a b s t h ha hb e r = omega arith
weight_cancel (suc (suc (suc (suc (suc (suc (suc (suc zero)))))))) a b s t h ha hb e r = omega arith
weight_cancel (suc (suc (suc (suc (suc (suc (suc (suc (suc zero))))))))) a b s t h ha hb e r =
    omega arith
weight_cancel (suc (suc (suc (suc (suc (suc (suc (suc (suc (suc zero)))))))))) a b s t h ha hb e r =
    omega arith
weight_cancel (suc (suc (suc (suc (suc (suc (suc (suc (suc (suc (suc w))))))))))) a b s t h ha hb e
      r =
    absurd (ground arith)

get_or-within :
    (ws : List ℕ) (i : ℕ)
    → all (within 1 10) ws ≡ true
    → i < length ws
    → within 1 10 (get_or ws i 0) ≡ true
get_or-within [] i h l = absurd (omega arith)
get_or-within (w ∷ ws) zero h l = ground arith
get_or-within (w ∷ ws) (suc i) h l = get_or-within ws i (ground arith) (omega arith)

digit_bound :
    (c : ℕ) → is_ascii_digit c ≡ true → (digit_or_zero c < 10) × (digit_or_zero c ≡ c - b'0')
unfolding digit_or_zero to_digit
digit_bound c h = ground arith

first_char :
    (j k : ℕ) (t : Text) → starts_with (j ∷ []) t ≡ true → starts_with (k ∷ []) t ≡ true → j ≡ k
unfolding starts_with strip_prefix
first_char j k [] h g = absurd cc
first_char j k (c ∷ t) h g = ground arith

-- An accepted card ends with the check character of its body.
accepted :
    (u : Casing) (body last num : Text) (year : ℕ)
    → split_at 17 num ≡ some (body, last)
    → idcard18_ok_at u num year ≡ some true
    → starts_with (check_char body ∷ []) (u.to_uppercase last) ≡ true
unfolding idcard18_ok_at idcard18_body
accepted u body last num year form h = ground arith

same_rest :
    (body body' : Text)
    → check_char body ≡ check_char body'
    → weighted idcard_weights (map digit_or_zero body) % 11
      ≡ weighted idcard_weights (map digit_or_zero body') % 11
unfolding check_char
same_rest body body' same =
    sym (code_place_lem (weighted idcard_weights (map digit_or_zero body) % 11) (omega arith))
    ∙ ap code_place same
    ∙ code_place_lem (weighted idcard_weights (map digit_or_zero body') % 11) (omega arith)

body_split :
    (pre post last : Text) (a : ℕ)
    → length pre + length post ≡ 16
    → all is_ascii_digit pre ≡ true
    → all is_ascii_digit post ≡ true
    → is_ascii_digit a ≡ true
    → split_at 17 ((pre ++ a ∷ post) ++ last) ≡ some (pre ++ a ∷ post, last)
body_split pre post last a long hp hq ha =
    ap (λ n. split_at n ((pre ++ a ∷ post) ++ last)) (omega (arith, length-append pre (a ∷ post)))
    ∙ split_at-append (pre ++ a ∷ post) last
        (digits_ascii (pre ++ a ∷ post) (ground (arith, all-append is_ascii_digit pre (a ∷ post))))

-- Another digit in the place of one changes the check character.
check_char-substitute :
    (pre post : Text) (a b : ℕ)
    → length pre < 17
    → is_ascii_digit a ≡ true
    → is_ascii_digit b ≡ true
    → check_char (pre ++ a ∷ post) ≡ check_char (pre ++ b ∷ post)
    → a ≡ b
check_char-substitute pre post a b short ha hb same =
    let (la, ea) = digit_bound a ha in
    let (lb, eb) = digit_bound b hb in
    let moved = weighted-map digit_or_zero idcard_weights pre post a b in
    let invertible = get_or-within idcard_weights (length pre) refl short in
    let rest = same_rest (pre ++ a ∷ post) (pre ++ b ∷ post) same in
    let value =
      weight_cancel (get_or idcard_weights (length pre) 0) (digit_or_zero a) (digit_or_zero b)
        (weighted idcard_weights (map digit_or_zero (pre ++ a ∷ post)))
        (weighted idcard_weights (map digit_or_zero (pre ++ b ∷ post))) invertible la lb moved
        rest in
    ground arith

-- Another digit in the place of any one digit of an accepted card is refused.
pub idcard18_ok_at-substitute :
    (u : Casing) (pre post last : Text) (a b year : ℕ)
    → length pre + length post ≡ 16
    → all is_ascii_digit pre ≡ true
    → all is_ascii_digit post ≡ true
    → is_ascii_digit a ≡ true
    → is_ascii_digit b ≡ true
    → a ≢ b
    → idcard18_ok_at u ((pre ++ a ∷ post) ++ last) year ≡ some true
    → ¬ (idcard18_ok_at u ((pre ++ b ∷ post) ++ last) year ≡ some true)
idcard18_ok_at-substitute u pre post last a b year long hp hq ha hb other ok ok' = other (
    check_char-substitute pre post a b (omega arith) ha hb (
      first_char (check_char (pre ++ a ∷ post)) (check_char (pre ++ b ∷ post)) (u.to_uppercase last)
        (accepted u (pre ++ a ∷ post) last ((pre ++ a ∷ post) ++ last) year
          (body_split pre post last a long hp hq ha) ok)
        (accepted u (pre ++ b ∷ post) last ((pre ++ b ∷ post) ++ last) year
          (body_split pre post last b long hp hq hb) ok')))
