-- ===== src/Tests/Decoder.antt =====
-- A decoder of UTF-8, for the parameter of the streamed text: it reads back the bytes of every text.
use maskit_rs.Base.{
  ℕ, zero, suc, ◌+◌, ◌*◌, ◌%◌, ◌≡◌, refl, ◌∙◌, ap, inl, inr, Bool, true, false, List, [], ◌∷◌, ◌++◌,
  Text, ltb, if◌then◌else◌, all, arith, Bool-cases,
}
use maskit_rs.Str.{utf8, as_bytes}
use maskit_rs.Stream.Sse.{is_char, Lossy}

-- How many bytes a first byte announces, and what it carries.
abbrev announced : ℕ → ℕ
announced b = if ltb b 0x80 then 0 else if ltb b 0xE0 then 1 else if ltb b 0xF0 then 2 else 3

abbrev is_zero : ℕ → Bool
is_zero zero = true
is_zero (suc _) = false

abbrev less : ℕ → ℕ
less zero = zero
less (suc n) = n

abbrev carried : ℕ → ℕ
carried b =
    if ltb b 0x80 then b else if ltb b 0xE0 then b % 32 else if ltb b 0xF0 then b % 16 else b % 8

unfoldable pub decode : ℕ → ℕ → List ℕ → Text
decode missing acc [] = []
decode missing acc (b ∷ bs) =
    let fresh = is_zero missing in
    let left = if fresh then announced b else less missing in
    let value = if fresh then carried b else acc * 64 + b % 64 in
    let rest = decode left value bs in if is_zero left then value ∷ rest else rest

decode_own : (acc acc' : ℕ) (bs : List ℕ) → decode 0 acc bs ≡ decode 0 acc' bs
unfolding decode
decode_own acc acc' [] = refl
decode_own acc acc' (b ∷ bs) = refl

lead_step :
    (k b acc : ℕ) (bs : List ℕ)
    → announced b ≡ suc k
    → decode 0 acc (b ∷ bs) ≡ decode (suc k) (carried b) bs
unfolding decode
lead_step k b acc bs h = rw h refl

mid_step :
    (k b acc : ℕ) (bs : List ℕ)
    → decode (suc (suc k)) acc (b ∷ bs) ≡ decode (suc k) (acc * 64 + b % 64) bs
unfolding decode
mid_step k b acc bs = refl

last_step :
    (b acc : ℕ) (bs : List ℕ)
    → decode 1 acc (b ∷ bs) ≡ (acc * 64 + b % 64) ∷ decode 0 (acc * 64 + b % 64) bs
unfolding decode
last_step b acc bs = refl

one_step : (c acc : ℕ) (bs : List ℕ) → ltb c 0x80 ≡ true → decode 0 acc (c ∷ bs) ≡ c ∷ decode 0 c bs
unfolding decode
one_step c acc bs h = rw h refl

value : (v c : ℕ) (bs : List ℕ) → v ≡ c → v ∷ decode 0 v bs ≡ c ∷ decode 0 c bs
value v c bs e = ap (λ x. x ∷ decode 0 x bs) e

decode_char :
    (c acc : ℕ) (bs : List ℕ)
    → ltb c 0x110000 ≡ true
    → decode 0 acc (utf8 c ++ bs) ≡ c ∷ decode 0 c bs
unfolding utf8
decode_char c acc bs h = elim (Bool-cases (ltb c 0x80)) [
  | inl e ↦ rw e (one_step c acc bs e)
  | inr e ↦ elim (Bool-cases (ltb c 0x800)) [
    | inl e' ↦
        rw (e, e')
          (lead_step 0 _ acc _ (ground arith) ∙ last_step _ _ bs ∙ value _ c bs (ground arith))
    | inr e' ↦ elim (Bool-cases (ltb c 0x10000)) [
      | inl e'' ↦
          rw (e, e', e'')
            (lead_step 1 _ acc _ (ground arith)
              ∙ mid_step 0 _ _ _
              ∙ last_step _ _ bs
              ∙ value _ c bs (ground arith))
      | inr e'' ↦
          rw (e, e', e'')
            (lead_step 2 _ acc _ (ground arith)
              ∙ mid_step 1 _ _ _
              ∙ mid_step 0 _ _ _
              ∙ last_step _ _ bs
              ∙ value _ c bs (ground arith))
    ]
  ]
]

pub decode_text : (s : Text) (acc : ℕ) → all is_char s ≡ true → decode 0 acc (as_bytes s) ≡ s
unfolding as_bytes decode
decode_text [] acc h = refl
decode_text (c ∷ s) acc h =
    decode_char c acc (as_bytes s) (ground arith) ∙ ap (◌∷◌ c) (decode_text s c (ground arith))

abbrev pub lossy : Lossy
lossy = record { from_utf8_lossy = decode 0 0; valid = λ s. decode_text s 0 }
