-- ===== src/Stream/Sse/Bytes.antt =====
-- src/stream/sse.rs, `decode_chunk`: one chunk, and the forms of the bytes of a character.
use mathlib.Core.List.{reverse, reverse_aux, reverse-append}
use Prim.Native.Nat.{min}
use maskit_rs.Base.{
  ℕ, zero, suc, ◌+◌, ◌/◌, ◌%◌, ◌<◌, ◌≤◌, ◌≡◌, refl, sym, ◌∙◌, ap, inl, inr, true, false, none, some,
  List, [], ◌∷◌, ◌++◌, append_assoc, append-nil, Text, ltb, leb, ◌==◌, length, length-append,
  length-take, take, drop, all, arith, Bool-cases,
}
use maskit_rs.Str.{utf8, as_bytes}
use maskit_rs.Stream.Sse.{is_char, Lossy, need, held_bytes, cut, decode_chunk}

-- A first byte of a sequence of that length, and a byte inside one.
Lead : ℕ → ℕ → Type 0
Lead n b = ((b / 128 % 2 == 0) ≡ false) × (need b ≡ some n)

Inner : ℕ → Type 0
Inner b = ((b / 128 % 2 == 0) ≡ false) × (need b ≡ none)

-- The four forms of the bytes of one character.
data Form : List ℕ → Type 0 where
  one : {a : ℕ} → (a / 128 % 2 == 0) ≡ true → Form (a ∷ [])
  two : {a b : ℕ} → Lead 2 a → Inner b → Form (a ∷ b ∷ [])
  three : {a b c : ℕ} → Lead 3 a → Inner b → Inner c → Form (a ∷ b ∷ c ∷ [])
  four : {a b c d : ℕ} → Lead 4 a → Inner b → Inner c → Inner d → Form (a ∷ b ∷ c ∷ d ∷ [])

utf8-Inner : (n : ℕ) → n < 64 → Inner (128 + n)
unfolding Inner need
utf8-Inner n h = ground arith

form : (c : ℕ) → is_char c ≡ true → Form (utf8 c)
unfolding utf8 Lead need
form c h = elim (Bool-cases (ltb c 0x80)) [
  | inl e ↦ rw e (one (ground arith))
  | inr e ↦ elim (Bool-cases (ltb c 0x800)) [
    | inl e' ↦ rw (e, e') (two (ground arith) (utf8-Inner _ (omega arith)))
    | inr e' ↦ elim (Bool-cases (ltb c 0x10000)) [
      | inl e'' ↦
          rw (e, e', e'')
            (three (ground arith) (utf8-Inner _ (omega arith)) (utf8-Inner _ (omega arith)))
      | inr e'' ↦
          rw (e, e', e'')
            (four (ground arith) (utf8-Inner _ (omega arith)) (utf8-Inner _ (omega arith))
              (utf8-Inner _ (omega arith)))
    ]
  ]
]

form_length : {bs : List ℕ} → Form bs → 0 < length bs
form_length (one e) = omega arith
form_length (two a b) = omega arith
form_length (three a b c) = omega arith
form_length (four a b c d) = omega arith

held_whole : {bs : List ℕ} → Form bs → (r : List ℕ) → held_bytes 3 1 (reverse bs ++ r) ≡ 0
unfolding held_bytes Lead Inner
held_whole (one e) r = ground arith
held_whole (two (a, a') (b, b')) r = ground arith
held_whole (three (a, a') (b, b') (c, c')) r = ground arith
held_whole (four (a, a') (b, b') (c, c') (d, d')) r = ground arith

held_part :
    {bs : List ℕ}
    → Form bs
    → (k : ℕ) (r : List ℕ) → suc k < length bs
    → held_bytes 3 1 (reverse (take (suc k) bs) ++ r) ≡ suc k
unfolding held_bytes Lead Inner
held_part (one e) k r h = absurd (omega arith)
held_part (two (a, a') (b, b')) zero r h = ground arith
held_part (two (a, a') (b, b')) (suc k) r h = absurd (omega arith)
held_part (three (a, a') (b, b') (c, c')) zero r h = ground arith
held_part (three (a, a') (b, b') (c, c')) (suc zero) r h = ground arith
held_part (three (a, a') (b, b') (c, c')) (suc (suc k)) r h = absurd (omega arith)
held_part (four (a, a') (b, b') (c, c') (d, d')) zero r h = ground arith
held_part (four (a, a') (b, b') (c, c') (d, d')) (suc zero) r h = ground arith
held_part (four (a, a') (b, b') (c, c') (d, d')) (suc (suc zero)) r h = ground arith
held_part (four (a, a') (b, b') (c, c') (d, d')) (suc (suc (suc k))) r h = absurd (omega arith)

-- Behind whole characters nothing waits.
held_text :
    (c : ℕ) (s : Text) (r : List ℕ)
    → all is_char (c ∷ s) ≡ true
    → held_bytes 3 1 (reverse (as_bytes (c ∷ s)) ++ r) ≡ 0
unfolding as_bytes
held_text c [] r h =
    ap (λ x. held_bytes 3 1 (reverse x ++ r)) (append-nil (utf8 c))
    ∙ held_whole (form c (ground arith)) r
held_text c (d ∷ s) r h =
    ap (λ x. held_bytes 3 1 (x ++ r)) (reverse-append (utf8 c) (as_bytes (d ∷ s)))
    ∙ ap (held_bytes 3 1) (append_assoc (reverse (as_bytes (d ∷ s))) (reverse (utf8 c)) r)
    ∙ held_text d s (reverse (utf8 c) ++ r) (ground arith)

held_short :
    (m k back : ℕ) (bytes : List ℕ)
    → length bytes ≤ m
    → m ≤ k
    → held_bytes m back bytes ≡ held_bytes k back bytes
unfolding held_bytes
held_short zero zero back bytes h l = refl
held_short zero (suc k) back [] h l = refl
held_short zero (suc k) back (b ∷ bytes) h l = absurd (omega arith)
held_short (suc m) zero back bytes h l = absurd (omega arith)
held_short (suc m) (suc k) back [] h l = refl
held_short (suc m) (suc k) back (b ∷ bytes) h l =
    ground (arith, held_short m k (back + 1) bytes (omega arith) (omega arith))

-- The loop has at most three rounds, and one for each byte.
held_rounds : (bytes : List ℕ) → held_bytes (min 3 (length bytes)) 1 bytes ≡ held_bytes 3 1 bytes
held_rounds bytes = elim (Bool-cases (leb 3 (length bytes))) [
  | inl e ↦ ap (λ n. held_bytes n 1 bytes) (ground arith)
  | inr e ↦
      ap (λ n. held_bytes n 1 bytes) (ground arith)
      ∙ held_short (length bytes) 3 1 bytes (omega arith) (ground arith)
]

-- Bytes of which a character needs more, or none.
unfoldable pub IsPartial : List ℕ → Type 0
IsPartial p = (c : ℕ) × (k : ℕ) × (is_char c ≡ true) × (k < length (utf8 c)) × (p ≡ take k (utf8 c))

held_none : held_bytes 3 1 [] ≡ 0
unfolding held_bytes
held_none = refl

held_end :
    (s : Text) (p : List ℕ)
    → all is_char s ≡ true
    → IsPartial p
    → held_bytes 3 1 (reverse (as_bytes s ++ p)) ≡ length p
unfolding IsPartial as_bytes
held_end s p h (c, suc k, hc, hk, e) =
    ap (held_bytes 3 1) (reverse-append (as_bytes s) p)
    ∙ ap (λ x. held_bytes 3 1 (reverse x ++ reverse (as_bytes s))) e
    ∙ held_part (form c hc) k (reverse (as_bytes s)) hk
    ∙ (omega (arith, length-take (suc k) (utf8 c), ap length e))
held_end [] p h (c, zero, hc, hk, e) =
    ap (λ x. held_bytes 3 1 (reverse x)) e ∙ held_none ∙ sym (ap length e)
held_end (d ∷ s) p h (c, zero, hc, hk, e) =
    ap (λ x. held_bytes 3 1 (reverse (as_bytes (d ∷ s) ++ x))) e
    ∙ ap (λ x. held_bytes 3 1 (reverse x)) (append-nil (as_bytes (d ∷ s)))
    ∙ sym (ap (held_bytes 3 1) (append-nil (reverse (as_bytes (d ∷ s)))))
    ∙ held_text d s [] h
    ∙ sym (ap length e)

take_front {ℓ} : {A : Type ℓ} (xs ys : List A) → take (length xs) (xs ++ ys) ≡ xs
take_front [] ys = refl
take_front (x ∷ xs) ys = ap (◌∷◌ x) (take_front xs ys)

drop_front {ℓ} : {A : Type ℓ} (xs ys : List A) → drop (length xs) (xs ++ ys) ≡ ys
drop_front [] ys = refl
drop_front (x ∷ xs) ys = drop_front xs ys

length-reverse_aux {ℓ} :
    {A : Type ℓ} (xs ys : List A) → length (reverse_aux xs ys) ≡ length xs + length ys
length-reverse_aux [] ys = omega arith
length-reverse_aux (x ∷ xs) ys = omega (arith, length-reverse_aux xs (x ∷ ys))

length-reverse {ℓ} : {A : Type ℓ} (xs : List A) → length (reverse xs) ≡ length xs
length-reverse xs = omega (arith, length-reverse_aux xs [])

cut_lem :
    (s : Text) (p : List ℕ)
    → all is_char s ≡ true
    → IsPartial p
    → cut (as_bytes s ++ p) ≡ length (as_bytes s)
unfolding cut
cut_lem s p h part = omega (
  arith,
  length-append (as_bytes s) p,
  length-reverse (as_bytes s ++ p),
  held_rounds (reverse (as_bytes s ++ p)),
  held_end s p h part,
  ap (λ n. held_bytes (min 3 n) 1 (reverse (as_bytes s ++ p))) (length-reverse (as_bytes s ++ p)),
)

-- A chunk that ends within a character gives the whole characters and keeps the rest.
pub decode_chunk_lem :
    (l : Lossy) (tail chunk : List ℕ) (s : Text) (p : List ℕ)
    → all is_char s ≡ true
    → IsPartial p
    → tail ++ chunk ≡ as_bytes s ++ p
    → decode_chunk l tail chunk ≡ (s, p)
unfolding decode_chunk
decode_chunk_lem l tail chunk s p h part e =
    ap (λ x. (l.from_utf8_lossy (take (cut x) x), drop (cut x) x)) e
    ∙ ap (λ n. (l.from_utf8_lossy (take n (as_bytes s ++ p)), drop n (as_bytes s ++ p)))
        (cut_lem s p h part)
    ∙ ap (λ x. (l.from_utf8_lossy x, drop (length (as_bytes s)) (as_bytes s ++ p)))
        (take_front (as_bytes s) p)
    ∙ ap (λ x. (x, drop (length (as_bytes s)) (as_bytes s ++ p))) (l.valid s h)
    ∙ ap (λ x. (s, x)) (drop_front (as_bytes s) p)

pub IsPartial-none : IsPartial []
unfolding IsPartial utf8
IsPartial-none = (0, 0, refl, omega arith, refl)

pub take-IsPartial :
    (c k : ℕ) → is_char c ≡ true → k < length (utf8 c) → IsPartial (take k (utf8 c))
unfolding IsPartial
take-IsPartial c k h l = (c, k, h, l, refl)

-- Bytes of which a character needs more are no text but the empty one.
pub partial_text :
    (s : Text) (p : List ℕ) → all is_char s ≡ true → IsPartial p → p ≡ as_bytes s → s ≡ []
unfolding as_bytes
partial_text [] p h part e = refl
partial_text (c ∷ s) p h part e =
    let waits = held_end [] p refl part in
    let ends = held_text c s [] h in
    let same =
      ap (λ x. held_bytes 3 1 (reverse x)) e
      ∙ sym (ap (held_bytes 3 1) (append-nil (reverse (as_bytes (c ∷ s))))) in
    absurd (
      omega (
        arith,
        waits,
        ends,
        same,
        ap length e,
        length-append (utf8 c) (as_bytes s),
        form_length (form c (ground arith)),
      ))
