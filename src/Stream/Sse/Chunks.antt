-- ===== src/Stream/Sse/Chunks.antt =====
-- src/stream/sse.rs, `decode_chunk` over the chunks of a stream.
use maskit_rs.Base.{
  ℕ, suc, ◌<◌, ◌≡◌, ◌⊎◌, refl, sym, ◌∙◌, ap, inl, inr, true, List, [], ◌∷◌, ◌++◌, append_assoc,
  append-nil, Text, length, take, all, all-append, arith,
}
use maskit_rs.Str.{utf8, as_bytes}
use maskit_rs.Stream.Sse.{is_char, Lossy, decode_chunk}
use maskit_rs.Stream.Sse.Bytes.{
  IsPartial, decode_chunk_lem, IsPartial-none, take-IsPartial, partial_text,
}

-- Where two lists make the same as two others, the first is a part of the other first one, or that
-- is a proper part of it.
append_cases {ℓ} :
    {A : Type ℓ} (u b x y : List A)
    → u ++ b ≡ x ++ y
    → ((r : List A) × (x ≡ u ++ r) × (b ≡ r ++ y)) ⊎ ((k : ℕ) × (k < length u) × (x ≡ take k u))
append_cases [] b x y e = inl (x, refl, e)
append_cases (a ∷ u) b [] y e = inr (0, omega arith, refl)
append_cases (a ∷ u) b (c ∷ x) y e = elim (append_cases u b x y cc) [
  | inl (r, ex, eb) ↦ inl (r, cc, eb)
  | inr (k, l, ex) ↦ inr (suc k, omega arith, cc)
]

-- The chunks one after the other, from the bytes that wait.
unfoldable pub decode_all : Lossy → List (List ℕ) → List ℕ → Text × List ℕ
decode_all l [] tail = ([], tail)
decode_all l (chunk ∷ chunks) tail =
    let (s, tail') = decode_chunk l tail chunk in
    let (rest, end) = decode_all l chunks tail' in (s ++ rest, end)

unfoldable pub join : List (List ℕ) → List ℕ
join [] = []
join (x ∷ xs) = x ++ join xs

Split : Text → List ℕ → List ℕ → Type 0
Split s x y =
    (s1 : Text) × (s2 : Text) × (p : List ℕ) × (s ≡ s1 ++ s2)
    × (x ≡ as_bytes s1 ++ p)
    × IsPartial p
    × (p ++ y ≡ as_bytes s2)

as_bytes-Split :
    (s : Text) (x y : List ℕ) → all is_char s ≡ true → as_bytes s ≡ x ++ y → Split s x y
unfolding Split as_bytes
as_bytes-Split [] [] y h e = ([], [], [], refl, refl, IsPartial-none, sym e)
as_bytes-Split [] (a ∷ x) y h e = absurd cc
as_bytes-Split (c ∷ s) x y h e = elim (append_cases (utf8 c) (as_bytes s) x y e) [
  | inl (r, ex, eb) ↦
      let (s1, s2, p, es, er, part, ey) = as_bytes-Split s r y (ground arith) eb in
      (
        c ∷ s1,
        s2,
        p,
        ap (◌∷◌ c) es,
        ex ∙ ap (λ z. utf8 c ++ z) er ∙ sym (append_assoc (utf8 c) (as_bytes s1) p),
        part,
        ey,
      )
  | inr (k, l, ex) ↦ (
    [],
    c ∷ s,
    take k (utf8 c),
    refl,
    ex,
    take-IsPartial c k (ground arith) l,
    ap (λ z. z ++ y) (sym ex) ∙ sym e,
  )
]

-- However the bytes of a text are cut into chunks, the texts of the chunks make the text, and at its
-- end nothing waits.
pub decode_all_lem :
    (l : Lossy) (s : Text) (chunks : List (List ℕ)) (tail : List ℕ)
    → all is_char s ≡ true
    → IsPartial tail
    → tail ++ join chunks ≡ as_bytes s
    → decode_all l chunks tail ≡ (s, [])
unfolding decode_all join as_bytes Split
decode_all_lem l s [] tail h part e =
    let same = sym (append-nil tail) ∙ e in
    let blank = partial_text s tail h part same in
    ap (λ x. (x, tail)) (sym blank) ∙ ap (λ x. (s, x)) (same ∙ ap as_bytes blank)
decode_all_lem l s (chunk ∷ chunks) tail h part e =
    let (s1, s2, p, es, ex, part', ey) =
      as_bytes-Split s (tail ++ chunk) (join chunks) h
        (sym e ∙ sym (append_assoc tail chunk (join chunks))) in
    let both = sym (all-append is_char s1 s2) ∙ ap (all is_char) (sym es) ∙ h in
    ap (λ r. (r.0 ++ (decode_all l chunks r.1).0, (decode_all l chunks r.1).1))
      (decode_chunk_lem l tail chunk s1 p (ground arith) part' ex)
    ∙ ap (λ r. (s1 ++ r.0, r.1)) (decode_all_lem l s2 chunks p (ground arith) part' ey)
    ∙ ap (λ x. (x, [])) (sym es)
