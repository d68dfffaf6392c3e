-- ===== src/Tree/Dialog/Texts.antt =====
-- src/mask/tree.rs, `extract_dialog_text`: which texts of a body an event keeps.
use maskit_rs.Base.{
  ℕ, zero, suc, ◌+◌, ◌≤◌, ◌≡◌, refl, sym, ap, ◌∙◌, inl, inr, Bool-cases, Bool, true, false, ◌⊎◌,
  Text, List, [], ◌∷◌, ◌++◌, append_assoc, append-nil, is_empty, length, length-append, length-take,
  take, take_whole, ltb, leb, if◌then◌else◌, arith,
}
use mathlib.Core.Path.{subst}
use maskit_rs.Str.{trim}
use maskit_rs.Json.{
  Value, Values, Fields, null, bool, number, string, array, object, no_items, item, no_fields,
  field,
}
use maskit_rs.Tree.Dialog.{
  dialog_max_chars, is_text_key, push_text, stops, collect, collect_items, collect_fields, descend,
  descend_items, cut_mark, cut_dialog, extract_dialog_text,
}

-- The texts of a body that stand under a text key, also within arrays, down to the twelfth level;
-- `inside` says that the value itself does.
unfoldable mutual
  unfolding is_text_key

  pub texts : Bool → Value → ℕ → List Text
  texts inside null depth = []
  texts inside (bool b) depth = []
  texts inside (number n) depth = []
  texts inside (string s) depth = if ltb 12 depth then [] else if inside then s ∷ [] else []
  texts inside (array vs) depth =
      let more = item_texts inside vs (depth + 1) in if ltb 12 depth then [] else more
  texts inside (object fs) depth =
      let more = field_texts fs (depth + 1) in if ltb 12 depth then [] else more

  pub item_texts : Bool → Values → ℕ → List Text
  item_texts inside no_items depth = []
  item_texts inside (item v vs) depth = texts inside v depth ++ item_texts inside vs depth

  pub field_texts : Fields → ℕ → List Text
  field_texts no_fields depth = []
  field_texts (field k v fs) depth = texts (is_text_key k) v depth ++ field_texts fs depth

-- Texts behind one another, each on a line of its own, blank ones left out.
unfoldable pub lines : Text → List Text → Text
unfolding push_text
lines out [] = out
lines out (t ∷ ts) = lines (push_text out t) ts

lines-append : (out : Text) (ts us : List Text) → lines out (ts ++ us) ≡ lines (lines out ts) us
unfolding lines
lines-append out [] us = refl
lines-append out (t ∷ ts) us = lines-append (push_text out t) ts us

-- One text begins another.
Begins : Text → Text → Type 0
Begins a b = (r : Text) × (b ≡ a ++ r)

Begins-self : (a : Text) → Begins a a
unfolding Begins
Begins-self a = ([], sym (append-nil a))

Begins-twice : (a b c : Text) → Begins a b → Begins b c → Begins a c
unfolding Begins
Begins-twice a b c (r, e) (t, f) = (r ++ t, f ∙ ap (λ x. x ++ t) e ∙ append_assoc a r t)

Begins-push_text : (out s : Text) → Begins out (push_text out s)
unfolding push_text Begins
Begins-push_text [] s = (push_text [] s, refl)
Begins-push_text (c ∷ out) s = elim (Bool-cases (is_empty (trim s))) [
  | inl e ↦ rw e (Begins-self (c ∷ out))
  | inr e ↦ rw e (0xA ∷ s, refl)
]

Begins-lines : (out : Text) (ts : List Text) → Begins out (lines out ts)
unfolding lines
Begins-lines out [] = Begins-self out
Begins-lines out (t ∷ ts) =
    Begins-twice out (push_text out t) (lines (push_text out t) ts) (Begins-push_text out t)
      (Begins-lines (push_text out t) ts)

take-append : (n : ℕ) (xs ys : Text) → n ≤ length xs → take n (xs ++ ys) ≡ take n xs
take-append zero xs ys h = refl
take-append (suc n) [] ys h = absurd (omega arith)
take-append (suc n) (x ∷ xs) ys h = ap (◌∷◌ x) (take-append n xs ys (omega arith))

module _ (limit : ℕ) where
  -- Two texts are the same, or the first is long enough and begins the other.
  Covers : Text → Text → Type 0
  Covers a b = (a ≡ b) ⊎ ((limit ≤ length a) × Begins a b)

  take-Covers : (a b : Text) → Covers a b → take limit a ≡ take limit b
  unfolding Covers Begins
  take-Covers a b (inl e) = ap (take limit) e
  take-Covers a b (inr (h, (r, e))) = sym (take-append limit a r h) ∙ ap (take limit) (sym e)

  -- A walk that stops stays with what it has.
  Covers-checked :
      (out more : Text) (ts : List Text) (depth : ℕ)
      → Covers more (lines out ts)
      → Covers
          (if stops limit out depth then out else more)
          (lines out (if ltb 12 depth then [] else ts))
  unfolding Covers stops lines
  Covers-checked out more ts depth c = elim (Bool-cases (ltb 12 depth)) [
    | inl deep ↦ rw deep (inl refl)
    | inr fine ↦ elim (Bool-cases (leb limit (length out))) [
      | inl full ↦ rw (fine, full) (inr (ground arith, Begins-lines out ts))
      | inr free ↦ rw (fine, free) c
    ]
  ]

  -- What comes next adds its texts, unless what is there is long enough.
  Covers-then :
      (a out : Text) (ts us : List Text) (next : Text → Text)
      → Covers a (lines out ts)
      → (limit ≤ length a → next a ≡ a)
      → Covers (next a) (lines a us)
      → Covers (next a) (lines out (ts ++ us))
  unfolding Covers
  Covers-then a out ts us next (inl e) stay c =
      rw (lines-append out ts us) (subst (λ x. Covers (next a) (lines x us)) e c)
  Covers-then a out ts us next (inr (h, begins)) stay c =
      rw (lines-append out ts us, stay h)
        (inr (
          h,
          Begins-twice a (lines out ts) (lines (lines out ts) us) begins
              (Begins-lines (lines out ts) us),
        ))

  stay_checked :
      (out more : Text) (depth : ℕ)
      → limit ≤ length out
      → (if stops limit out depth then out else more) ≡ out
  unfolding stops
  stay_checked out more depth h = ground arith

  mutual
    unfolding collect

    stay-collect :
        (v : Value) (out : Text) (depth : ℕ) → limit ≤ length out → collect limit v out depth ≡ out
    stay-collect null out depth h = refl
    stay-collect (bool b) out depth h = refl
    stay-collect (number n) out depth h = refl
    stay-collect (string s) out depth h = stay_checked out (push_text out s) depth h
    stay-collect (array vs) out depth h =
        stay_checked out (collect_items limit vs out (depth + 1)) depth h
    stay-collect (object fs) out depth h =
        stay_checked out (collect_fields limit fs out (depth + 1)) depth h

    stay-descend :
        (v : Value) (out : Text) (depth : ℕ) → limit ≤ length out → descend limit v out depth ≡ out
    stay-descend null out depth h = refl
    stay-descend (bool b) out depth h = refl
    stay-descend (number n) out depth h = refl
    stay-descend (string s) out depth h = refl
    stay-descend (array vs) out depth h =
        stay_checked out (descend_items limit vs out (depth + 1)) depth h
    stay-descend (object fs) out depth h =
        stay_checked out (collect_fields limit fs out (depth + 1)) depth h

  stay-collect_items :
      (vs : Values) (out : Text) (depth : ℕ)
      → limit ≤ length out
      → collect_items limit vs out depth ≡ out
  unfolding collect_items
  stay-collect_items no_items out depth h = refl
  stay-collect_items (item v vs) out depth h =
      rw (stay-collect v out depth h) (stay-collect_items vs out depth h)

  stay-descend_items :
      (vs : Values) (out : Text) (depth : ℕ)
      → limit ≤ length out
      → descend_items limit vs out depth ≡ out
  unfolding descend_items
  stay-descend_items no_items out depth h = refl
  stay-descend_items (item v vs) out depth h =
      rw (stay-descend v out depth h) (stay-descend_items vs out depth h)

  stay-collect_fields :
      (fs : Fields) (out : Text) (depth : ℕ)
      → limit ≤ length out
      → collect_fields limit fs out depth ≡ out
  unfolding collect_fields
  stay-collect_fields no_fields out depth h = refl
  stay-collect_fields (field k v fs) out depth h = elim (Bool-cases (is_text_key k)) [
    | inl e ↦ rw (e, stay-collect v out depth h) (stay-collect_fields fs out depth h)
    | inr e ↦ rw (e, stay-descend v out depth h) (stay-collect_fields fs out depth h)
  ]

  mutual
    unfolding collect Covers lines texts

    Covers-collect :
        (v : Value) (out : Text) (depth : ℕ)
        → Covers (collect limit v out depth) (lines out (texts true v depth))
    Covers-collect null out depth = inl refl
    Covers-collect (bool b) out depth = inl refl
    Covers-collect (number n) out depth = inl refl
    Covers-collect (string s) out depth =
        Covers-checked out (push_text out s) (s ∷ []) depth (inl refl)
    Covers-collect (array vs) out depth =
        Covers-checked out _ _ depth (Covers-collect_items vs out (depth + 1))
    Covers-collect (object fs) out depth =
        Covers-checked out _ _ depth (Covers-collect_fields fs out (depth + 1))

    Covers-collect_items :
        (vs : Values) (out : Text) (depth : ℕ)
        → Covers (collect_items limit vs out depth) (lines out (item_texts true vs depth))
    Covers-collect_items no_items out depth = inl refl
    Covers-collect_items (item v vs) out depth =
        Covers-then _ out (texts true v depth) (item_texts true vs depth)
          (λ a. collect_items limit vs a depth) (Covers-collect v out depth)
          (stay-collect_items vs (collect limit v out depth) depth)
          (Covers-collect_items vs (collect limit v out depth) depth)

    Covers-descend :
        (v : Value) (out : Text) (depth : ℕ)
        → Covers (descend limit v out depth) (lines out (texts false v depth))
    Covers-descend null out depth = inl refl
    Covers-descend (bool b) out depth = inl refl
    Covers-descend (number n) out depth = inl refl
    Covers-descend (string s) out depth = inl (ground arith)
    Covers-descend (array vs) out depth =
        Covers-checked out _ _ depth (Covers-descend_items vs out (depth + 1))
    Covers-descend (object fs) out depth =
        Covers-checked out _ _ depth (Covers-collect_fields fs out (depth + 1))

    Covers-descend_items :
        (vs : Values) (out : Text) (depth : ℕ)
        → Covers (descend_items limit vs out depth) (lines out (item_texts false vs depth))
    Covers-descend_items no_items out depth = inl refl
    Covers-descend_items (item v vs) out depth =
        Covers-then _ out (texts false v depth) (item_texts false vs depth)
          (λ a. descend_items limit vs a depth) (Covers-descend v out depth)
          (stay-descend_items vs (descend limit v out depth) depth)
          (Covers-descend_items vs (descend limit v out depth) depth)

    Covers-collect_fields :
        (fs : Fields) (out : Text) (depth : ℕ)
        → Covers (collect_fields limit fs out depth) (lines out (field_texts fs depth))
    Covers-collect_fields no_fields out depth = inl refl
    Covers-collect_fields (field k v fs) out depth = elim (Bool-cases (is_text_key k)) [
      | inl e ↦ rw e (
          Covers-then _ out (texts true v depth) (field_texts fs depth)
            (λ a. collect_fields limit fs a depth) (Covers-collect v out depth)
            (stay-collect_fields fs (collect limit v out depth) depth)
            (Covers-collect_fields fs (collect limit v out depth) depth))
      | inr e ↦ rw e (
          Covers-then _ out (texts false v depth) (field_texts fs depth)
            (λ a. collect_fields limit fs a depth) (Covers-descend v out depth)
            (stay-collect_fields fs (descend limit v out depth) depth)
            (Covers-collect_fields fs (descend limit v out depth) depth))
    ]

-- What is cut keeps the text up to the limit, and is longer by the mark at most.
cut-take :
    (limit : ℕ) (out mark : Text)
    → (take limit (if ltb limit (length out) then take limit out ++ mark else out) ≡ take limit out)
      × (length (if ltb limit (length out) then take limit out ++ mark else out)
          ≤ limit + length mark)
cut-take limit out mark = elim (Bool-cases (ltb limit (length out))) [
  | inl long ↦ rw long (
    take-append limit (take limit out) mark (ground (arith, length-take limit out))
        ∙ take_whole (take limit out) (ground (arith, length-take limit out)),
    ground (arith, length-take limit out, length-append (take limit out) mark),
  )
  | inr short ↦ rw short (refl, ground arith)
]

-- Up to the limit, the dialogue text of a body is its texts that stand under a text key, down to the
-- twelfth level, in the order of the body and each that is not blank on a line of its own; behind
-- the limit stands at most the mark.
pub extract_dialog_text-lines :
    (v : Value)
    → (take dialog_max_chars (extract_dialog_text v)
        ≡ take dialog_max_chars (lines [] (texts false v 0)))
      × (length (extract_dialog_text v) ≤ dialog_max_chars + length cut_mark)
unfolding extract_dialog_text cut_dialog
extract_dialog_text-lines v =
    let (kept, bound) = cut-take dialog_max_chars (descend dialog_max_chars v [] 0) cut_mark in
    (
      kept
          ∙ take-Covers dialog_max_chars (descend dialog_max_chars v [] 0)
              (lines [] (texts false v 0)) (Covers-descend dialog_max_chars v [] 0),
      bound,
    )
