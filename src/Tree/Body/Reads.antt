-- ===== src/Tree/Body/Reads.antt =====
-- src/mask/tree.rs, `mask_body`: what the body that goes out is read as.
use maskit_rs.Base.{
  ℕ, ◌≡◌, refl, sym, ap, ◌∙◌, inl, inr, Bool-cases, Option-cases, Bool, true, false, not, ◌&&◌,
  ◌||◌, Option, none, some, Text, List, [], all, contains, is_empty, arith,
}
use maskit_rs.Base.Map.{text_eq}
use maskit_rs.Base.Results.{ok, pure, ◌>>=◌, After, After->>=, After-ok, After-value, After-weaken}
use maskit_rs.Json.{
  Value, null, bool, number, float, string, array, object, Values, no_items, item, Fields,
  no_fields, field, insert_key, get_key, contains_key,
}
use maskit_rs.Json.Keys.{UniqueKeys, HasUniqueKeys, FieldsUnique, join, join-no_fields}
use maskit_rs.Exemptions.Tables.{root_wrap_key, protected_key_names}
use maskit_rs.Tree.Literal.{is_scalar}
use maskit_rs.Tree.Body.Escaped.{ReadsEscapes, from_str-escape_non_ascii}
use maskit_rs.Tree.Mask.{Progress, mask_tree}
use maskit_rs.Tree.Mask.Unchanged.{Same, Same-mask_text, Same-tree, Same-packed, put_back}
use maskit_rs.Tree.Body.{
  Formats, BodyCtx, MaskedBody, serialize_compact, checked_splice, spliced_text, splice_mask,
  splice_pairs, out_text, seed, mask_root, mask_root_key, mask_root_fields, rewritten_body,
  write_back_body, mask_value, mask_text_body, mask_body, untouched, null_or,
}

-- Whether there is a float in a value.
unfoldable mutual
  pub has_float : Value → Bool
  has_float null = false
  has_float (bool b) = false
  has_float (number (float t)) = true
  has_float (number n) = false
  has_float (string s) = false
  has_float (array vs) = items_float vs
  has_float (object fs) = fields_float fs

  pub items_float : Values → Bool
  items_float no_items = false
  items_float (item v vs) = has_float v || items_float vs

  pub fields_float : Fields → Bool
  fields_float no_fields = false
  fields_float (field k v fs) = has_float v || fields_float fs

-- What is used of `serde_json`: the masked tree equals itself; it is printed, as a text of
-- characters, and the print is read back where no float is in the tree; and a character outside ASCII
-- is read as its escapes are.
pub record FormatLaws (f : Formats) (root : Value) : Type 0 where
  pub eq_refl : f.value_eq root root ≡ true
  pub print : Text
  pub prints : f.to_string root ≡ some print
  pub chars : all is_scalar print ≡ true
  pub reads : has_float root ≡ false → f.from_str print ≡ some root
  pub escapes : ReadsEscapes f.from_str

-- A text is read as a value that equals the given one.
abbrev pub Says : Formats → Value → Text → Type 0
Says f root t = (u : Value) × (f.from_str t ≡ some u) × (f.value_eq u root ≡ true)

module _ (f : Formats) (root : Value) (laws : FormatLaws f root)
    (no_float : has_float root ≡ false) where
  Says-serialize_compact : (ascii : Bool) → Says f root (serialize_compact f root ascii)
  unfolding serialize_compact
  Says-serialize_compact true = (
    root,
    rw laws.prints (
        from_str-escape_non_ascii f.from_str laws.escapes root laws.print laws.chars
          (laws.reads no_float)),
    laws.eq_refl,
  )
  Says-serialize_compact false = (root, rw laws.prints (laws.reads no_float), laws.eq_refl)

  -- Where there is a text, it says the value.
  unfoldable Said : Option Text → Type 0
  Said none = Unit
  Said (some t) = Says f root t

  Said-checked_splice : (spliced : List ℕ) → Said (checked_splice f root spliced)
  unfolding checked_splice Said
  Said-checked_splice spliced = elim (Option-cases (f.from_utf8 spliced)) [
    | inl e ↦ rw (e, Said) tt
    | inr (t, e) ↦
        rw (e, Said)
          (elim (Option-cases (f.from_str t)) [
            | inl e' ↦ rw (e', Said) tt
            | inr (v, e') ↦
                rw (e', Said)
                  (elim (Bool-cases (f.value_eq v root)) [
                    | inl same ↦ rw (same, Said) (v, e', same)
                    | inr other ↦ rw (other, Said) tt
                  ])
          ])
  ]

  Said-spliced_text :
      (dup : Bool) (raw : List ℕ) (fwd : Option (List (Text × Text)))
      → Said (spliced_text f dup raw fwd root)
  unfolding spliced_text Said
  Said-spliced_text true raw fwd = tt
  Said-spliced_text false raw none = tt
  Said-spliced_text false raw (some fwd) =
      elim (Option-cases (splice_mask f raw (splice_pairs fwd))) [
        | inl e ↦ rw (e, Said) tt
        | inr (t, e) ↦ rw (e, Said) (Said-checked_splice t)
      ]

  module _ {S : Type 0} (b : BodyCtx S) where
    Says-out_text : (raw : List ℕ) (o : Option Text) → Said o → Says f root (out_text f raw root o)
    unfolding out_text Said
    Says-out_text raw none h = Says-serialize_compact _
    Says-out_text raw (some t) h = h

    Same-mask_root_key : (k : Text) (p : Progress S) → After (Same k p) (mask_root_key f b k p)
    unfolding After mask_root_key
    Same-mask_root_key k p =
        elim (Bool-cases (text_eq k root_wrap_key || contains protected_key_names k)) [
          | inl kept ↦ rw kept (λ h. (h, refl))
          | inr masked ↦ rw masked (Same-mask_text b.ctx k p)
        ]

    Same-mask_root_fields :
        (fs out all : Fields) (p : Progress S)
        → (p.changed ≡ false → UniqueKeys (join out fs) × (join out fs ≡ all))
        → FieldsUnique fs
        → After (Same all p) (mask_root_fields f b fs out p)
    unfolding mask_root_fields After HasUniqueKeys
    Same-mask_root_fields no_fields out all p u us = λ h. (h, sym (join-no_fields out) ∙ (u h).1)
    Same-mask_root_fields (field k v fs) out all p u (us, vs) =
        After->>= (mask_root_key f b k) _ p (Same k p) (Same all p) (Same-mask_root_key k p)
          (λ new_key q h.
            After->>= (mask_tree b.ctx v (some k) none [] 0) _ q (Same v q) (Same all p)
              (Same-tree b.ctx v (some k) none [] 0 q us)
              (λ w r h'.
                After-weaken (Same all r) (Same all p) _
                  (Same-mask_root_fields fs (insert_key new_key w out) all r
                    (λ e.
                      put_back k v fs out all new_key w (h (h' e).0).1 (h' e).1 (u (h (h' e).0).0))
                    vs)
                  (λ res t g e. ((h (h' (g e).0).0).0, (g e).1))))

    wrapped :
        (v : Value) (p : Progress S)
        → HasUniqueKeys v
        → After (Same v p) (
            (mask_root_fields f b (field root_wrap_key v no_fields) no_fields >>= λ renamed.
            pure (null_or (get_key root_wrap_key renamed)))
              p)
    unfolding join contains_key HasUniqueKeys After get_key text_eq
    wrapped v p u =
        After->>= (mask_root_fields f b (field root_wrap_key v no_fields) no_fields) _ p
          (Same (field root_wrap_key v no_fields) p) (Same v p)
          (Same-mask_root_fields (field root_wrap_key v no_fields) no_fields
            (field root_wrap_key v no_fields) p (λ h. ((refl, tt), refl)) (u, tt))
          (λ a q h e. ((h e).0, ap (λ a. null_or (get_key root_wrap_key a)) (h e).1))

    Same-mask_root :
        (v : Value) (p : Progress S) → HasUniqueKeys v → After (Same v p) (mask_root f b v p)
    unfolding mask_root After HasUniqueKeys join
    Same-mask_root null p u = wrapped null p u
    Same-mask_root (bool c) p u = wrapped (bool c) p u
    Same-mask_root (number n) p u = wrapped (number n) p u
    Same-mask_root (string s) p u = wrapped (string s) p u
    Same-mask_root (array vs) p u = wrapped (array vs) p u
    Same-mask_root (object fs) p (u, us) =
        Same-packed b.ctx object fs (mask_root_fields f b fs no_fields) p p
          (Same-mask_root_fields fs no_fields fs p (λ h. (u, refl)) us)

    -- What is written back for a masked root that is the value itself where the flag is down.
    Says-write_back_body :
        (raw : List ℕ) (text : Text) (dup : Bool) (shape : Option Text) (v : Value) (q : Progress S)
        → f.from_str text ≡ some v
        → (q.changed ≡ false → root ≡ v)
        → After (λ out r. Says f root out.text) (write_back_body f b raw text dup shape root q)
    unfolding write_back_body After seed rewritten_body
    Says-write_back_body raw text dup shape v q reads same =
        elim (Bool-cases (not q.changed && not dup)) [
          | inl kept ↦ rw kept (v, reads, rw (← same (ground arith)) laws.eq_refl)
          | inr sent ↦ rw sent (Says-out_text raw _ (Said-spliced_text dup raw (b.fwd q.context)))
        ]

    Says-mask_text_body :
        (raw : List ℕ) (text : Text) (s : S) (v : Value) (q : Progress S)
        → is_empty text ≡ false
        → f.from_str text ≡ some v
        → HasUniqueKeys v
        → mask_root f b v (untouched s) ≡ (ok root, q)
        → After (λ out r. Says f root out.text) (mask_text_body f b raw text (untouched s))
    unfolding mask_text_body mask_value
    Says-mask_text_body raw text s v q some_text reads unique masked = rw some_text (
        rw reads (
          rw masked (
            Says-write_back_body raw text _ _ v q reads λ e.
              (After-ok (Same v (untouched s)) masked (Same-mask_root v (untouched s) unique)
                e).1)))

    -- What goes out says what was masked. For a body that is JSON with a tree `v` of unique keys,
    -- whose walk gives `root`, with no float in it: the text that `mask_body` returns, kept as it
    -- stands, spliced or printed anew, with or without the escapes of `serialize_compact`, is read by
    -- the parser as a value that equals `root`.
    pub mask_body-Says :
        (raw : List ℕ) (s s' : S) (v : Value) (q : Progress S) (out : MaskedBody)
        → is_empty (f.from_utf8_lossy raw) ≡ false
        → f.from_str (f.from_utf8_lossy raw) ≡ some v
        → HasUniqueKeys v
        → mask_root f b v (untouched s) ≡ (ok root, q)
        → mask_body f b raw s ≡ (ok out, s')
        → Says f root out.text
    unfolding mask_body
    mask_body-Says raw s s' v q out some_text reads unique masked sent =
        After-value (λ out. Says f root out.text) _ (ap (λ x. x.0) sent)
          (Says-mask_text_body raw (f.from_utf8_lossy raw) s v q some_text reads unique masked)
