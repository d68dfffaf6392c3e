-- ===== src/Validators/Uscc/Check.antt =====
-- src/mask/validators.rs, `uscc_ok`: what the check character of a credit code catches.
use maskit_rs.Base.{
  ℕ, zero, suc, ◌+◌, ◌-◌, ◌*◌, ◌%◌, ◌<◌, ◌≡◌, ◌≢◌, refl, sym, ◌∙◌, ap, inl, inr, true, none, some,
  Option-cases, Bool-cases, List, [], ◌∷◌, ◌++◌, map, Text, ◌==◌, ==_iff, length, length-append,
  all, take, get_or, arith,
}
use maskit_rs.Str.{is_ascii, as_bytes}
use maskit_rs.Str.Laws.{as_bytes_ascii}
use maskit_rs.Validators.Weighted.{weighted, weighted-map, places, place_of}
use maskit_rs.Validators.Uscc.{uscc_chars, uscc_weights, idx, position_from, uscc_total, uscc_ok}

-- The place of a character, 0 where it has none.
code_value : ℕ → ℕ
code_value c = elim (idx c) [ none ↦ 0 | some i ↦ i ]

-- The weights are invertible modulo 31.
weight_cancel :
    (i a b s t : ℕ)
    → i < 17
    → a < 31
    → b < 31
    → s + get_or uscc_weights i 0 * b ≡ t + get_or uscc_weights i 0 * a
    → s % 31 ≡ t % 31
    → a ≡ b
weight_cancel zero a b s t h ha hb e r = omega arith
weight_cancel (suc zero) a b s t h ha hb e r = omega arith
weight_cancel (suc (suc zero)) a b s t h ha hb e r = omega arith
weight_cancel (suc (suc (suc zero))) a b s t h ha hb e r = omega arith
weight_cancel (suc (suc (suc (suc zero)))) a b s t h ha hb e r = omega arith
weight_cancel (suc (suc (suc (suc (suc zero))))) a b s t h ha hb e r = omega arith
weight_cancel (suc (suc (suc (suc (suc (suc zero)))))) a b s t h ha hb e r = omega arith
weight_cancel (suc (suc (suc (suc (suc (suc (suc zero))))))) a b s t h ha hb e r = omega arith
weight_cancel (suc (suc (suc (suc (suc (suc (suc (suc zero)))))))) a b s t h ha hb e r = omega arith
weight_cancel (suc (suc (suc (suc (suc (suc (suc (suc (suc zero))))))))) a b s t h ha hb e r =
    omega arith
weight_cancel (suc (suc (suc (suc (suc (suc (suc (suc (suc (suc zero)))))))))) a b s t h ha hb e r =
    omega arith
weight_cancel (suc (suc (suc (suc (suc (suc (suc (suc (suc (suc (suc zero))))))))))) a b s t h ha hb
      e r =
    omega arith
weight_cancel (suc (suc (suc (suc (suc (suc (suc (suc (suc (suc (suc (suc zero)))))))))))) a b s t h
      ha hb e r =
    omega arith
weight_cancel (suc (suc (suc (suc (suc (suc (suc (suc (suc (suc (suc (suc (suc zero))))))))))))) a b
      s t h ha hb e r =
    omega arith
weight_cancel
      (suc (suc (suc (suc (suc (suc (suc (suc (suc (suc (suc (suc (suc (suc zero)))))))))))))) a b s
      t h ha hb e r =
    omega arith
weight_cancel
      (suc (suc (suc (suc (suc (suc (suc (suc (suc (suc (suc (suc (suc (suc (suc zero)))))))))))))))
      a b s t h ha hb e r =
    omega arith
weight_cancel
      (suc (
        suc
          (suc (suc (suc (suc (suc (suc (suc (suc (suc (suc (suc (suc (suc (suc zero))))))))))))))))
      a b s t h ha hb e r =
    omega arith
weight_cancel
      (suc (
        suc (
          suc
            (suc (suc (suc (suc (suc (suc (suc (suc (suc (suc (suc (suc (suc (suc i)))))))))))))))))
      a b s t h ha hb e r =
    absurd (omega arith)

-- The loop adds up the weighted places.
uscc_total-weighted :
    (ws bs : List ℕ) (total r : ℕ)
    → uscc_total ws bs total ≡ some r
    → r ≡ total + weighted ws (map code_value bs)
unfolding uscc_total weighted code_value
uscc_total-weighted [] bs total r h = ground arith
uscc_total-weighted (w ∷ ws) [] total r h = ground arith
uscc_total-weighted (w ∷ ws) (b ∷ bs) total r h = elim (Option-cases (idx b)) [
  | inl e ↦ absurd (ground arith)
  | inr (v, e) ↦ ground (arith, uscc_total-weighted ws bs (total + w * v) r)
]

place_char : (i : ℕ) → i < 31 → code_value (get_or uscc_chars i 0) ≡ i
unfolding places code_value idx position_from
place_char i h = place_of code_value uscc_chars 0 i refl h ∙ omega arith

-- What a place found in a table says.
position_from_lem :
    (i c v : ℕ) (cs : Text)
    → position_from i c cs ≡ some v
    → (k : ℕ) × (v ≡ i + k) × (k < length cs) × (get_or cs k 0 ≡ c)
unfolding position_from
position_from_lem i c v [] h = absurd cc
position_from_lem i c v (x ∷ cs) h = elim (Bool-cases (x == c)) [
  | inl e ↦ (0, ground arith, omega arith, (==_iff x c).0 e)
  | inr e ↦
      let (k, ev, small, found) = position_from_lem (suc i) c v cs (ground arith) in
      (suc k, omega arith, omega arith, found)
]

char_place :
    (c i : ℕ) → idx c ≡ some i → (i < 31) × (get_or uscc_chars i 0 ≡ c) × (code_value c ≡ i)
unfolding idx code_value
char_place c i h =
    let (k, ev, small, found) = position_from_lem 0 c i uscc_chars h in
    let same : i ≡ k = omega arith in
    (omega arith, ap (λ j. get_or uscc_chars j 0) same ∙ found, rw (h, code_value) refl)

body_front : (n : ℕ) (body : Text) (last : ℕ) → length body ≡ n → take n (body ++ last ∷ []) ≡ body
body_front zero [] last h = refl
body_front zero (c ∷ body) last h = absurd (omega arith)
body_front (suc n) [] last h = absurd (omega arith)
body_front (suc n) (c ∷ body) last h = ap (◌∷◌ c) (body_front n body last (omega arith))

body_last :
    (n : ℕ) (body : Text) (last : ℕ) → length body ≡ n → get_or (body ++ last ∷ []) n 0 ≡ last
body_last zero [] last h = refl
body_last zero (c ∷ body) last h = absurd (omega arith)
body_last (suc n) [] last h = absurd (omega arith)
body_last (suc n) (c ∷ body) last h = body_last n body last (omega arith)

asked_char : ℕ → ℕ
asked_char total = get_or uscc_chars ((31 - total % 31) % 31) 0

-- What the test says of the bytes.
tested :
    (orig : Text) (r : ℕ)
    → uscc_total uscc_weights (take 17 (as_bytes orig)) 0 ≡ some r
    → uscc_ok orig ≡ true
    → asked_char r ≡ get_or (as_bytes orig) 17 0
unfolding uscc_ok asked_char
tested orig r e h = ground arith

total_there :
    (orig : Text)
    → uscc_ok orig ≡ true
    → (r : ℕ) × (uscc_total uscc_weights (take 17 (as_bytes orig)) 0 ≡ some r)
unfolding uscc_ok
total_there orig h = elim (Option-cases (uscc_total uscc_weights (take 17 (as_bytes orig)) 0)) [
  | inl e ↦ absurd (ground arith)
  | inr (r, e) ↦ (r, e)
]

-- An accepted code ends with the character that its body asks for.
accepted :
    (body : Text) (last : ℕ)
    → length body ≡ 17
    → all is_ascii (body ++ last ∷ []) ≡ true
    → uscc_ok (body ++ last ∷ []) ≡ true
    → asked_char (weighted uscc_weights (map code_value body)) ≡ last
accepted body last long ascii h =
    let bytes = as_bytes_ascii (body ++ last ∷ []) ascii in
    let (r, e) = total_there (body ++ last ∷ []) h in
    let front = ap (take 17) bytes ∙ body_front 17 body last long in
    let sum : weighted uscc_weights (map code_value body) ≡ r =
      ap (λ b. weighted uscc_weights (map code_value b)) (sym front)
      ∙ omega (
        arith,
        uscc_total-weighted uscc_weights (take 17 (as_bytes (body ++ last ∷ []))) 0 r e,
      ) in
    ap asked_char sum
    ∙ tested (body ++ last ∷ []) r e h
    ∙ ap (λ b. get_or b 17 0) bytes
    ∙ body_last 17 body last long

-- Two sums that ask for one character are the same modulo 31.
same_rest : (s t : ℕ) → asked_char s ≡ asked_char t → s % 31 ≡ t % 31
unfolding asked_char
same_rest s t h =
    let same : (31 - s % 31) % 31 ≡ (31 - t % 31) % 31 =
      sym (place_char ((31 - s % 31) % 31) (omega arith))
      ∙ ap code_value h
      ∙ place_char ((31 - t % 31) % 31) (omega arith) in
    omega arith

-- Another character of the alphabet in the place of any one of the first seventeen of an accepted
-- code is refused.
pub uscc_ok-substitute :
    (pre post : Text) (a b last i j : ℕ)
    → length pre + length post ≡ 16
    → all is_ascii ((pre ++ a ∷ post) ++ last ∷ []) ≡ true
    → all is_ascii ((pre ++ b ∷ post) ++ last ∷ []) ≡ true
    → idx a ≡ some i
    → idx b ≡ some j
    → a ≢ b
    → uscc_ok ((pre ++ a ∷ post) ++ last ∷ []) ≡ true
    → ¬ (uscc_ok ((pre ++ b ∷ post) ++ last ∷ []) ≡ true)
uscc_ok-substitute pre post a b last i j long ha hb ea eb other ok ok' =
    let (li, ci, pi) = char_place a i ea in
    let (lj, cj, pj) = char_place b j eb in
    let long_a : length (pre ++ a ∷ post) ≡ 17 = omega (arith, length-append pre (a ∷ post)) in
    let long_b : length (pre ++ b ∷ post) ≡ 17 = omega (arith, length-append pre (b ∷ post)) in
    let rest =
      same_rest (weighted uscc_weights (map code_value (pre ++ a ∷ post)))
        (weighted uscc_weights (map code_value (pre ++ b ∷ post)))
        (accepted (pre ++ a ∷ post) last long_a ha ok
          ∙ sym (accepted (pre ++ b ∷ post) last long_b hb ok')) in
    let same =
      weight_cancel (length pre) (code_value a) (code_value b)
        (weighted uscc_weights (map code_value (pre ++ a ∷ post)))
        (weighted uscc_weights (map code_value (pre ++ b ∷ post))) (omega arith) (omega arith)
        (omega arith) (weighted-map code_value uscc_weights pre post a b) rest in
    other (sym ci ∙ ap (λ k. get_or uscc_chars k 0) (sym pi ∙ same ∙ pj) ∙ cj)
