-- ===== src/Tree/Mask/Unchanged.antt =====
-- src/mask/tree.rs, `mask_tree`: what the flag `changed` says of the tree.
use maskit_rs.Base.{
  ℕ, ◌+◌, ◌≡◌, refl, false, Option, some, Text, List, ◌∷◌, ◌∙◌, inl, inr, Bool-cases, ap, arith,
  sym, contains, ltb, if◌then◌else◌,
}
use maskit_rs.Base.Map.{text_eq, text_eq_iff}
use maskit_rs.Base.Results.{Run, ◌>>=◌, ◌>>◌, After, After->>=, After-weaken, After-ok, ok, pure}
use maskit_rs.Json.{
  Number, Value, null, bool, number, string, array, object, Values, no_items, item, Fields,
  no_fields, field, insert_key,
}
use maskit_rs.Json.Keys.{
  UniqueKeys, HasUniqueKeys, ItemsUnique, FieldsUnique, join, join-insert_key, join-no_fields,
}
use maskit_rs.Exemptions.Tables.{mask_max_depth, protected_key_names}
use maskit_rs.Tree.Mask.{
  MaskCtx, Progress, mask_text, mask_key, mask_string, mask_number, number_text, numeric_exempt,
  string_exempt, within_depth, mask_tree, mask_items, mask_fields, skips_subtree,
}

-- The flag is still down: it was before, and the result is the given one.
abbrev pub Same : {S A : Type 0} → A → Progress S → A → Progress S → Type 0
Same a p b q = q.changed ≡ false → (p.changed ≡ false) × (b ≡ a)

pub put_back :
    (k : Text) (v : Value) (fs out all : Fields) (new_key : Text) (w : Value)
    → new_key ≡ k
    → w ≡ v
    → UniqueKeys (join out (field k v fs)) × (join out (field k v fs) ≡ all)
    → UniqueKeys (join (insert_key new_key w out) fs) × (join (insert_key new_key w out) fs ≡ all)
put_back k v fs out all new_key w e e' (u, j) =
    rw e (rw e' (rw (join-insert_key out k v fs u) (u, j)))

module _ {S : Type 0} (ctx : MaskCtx S) where
  pub Same-mask_text : (s : Text) (p : Progress S) → After (Same s p) (mask_text ctx s p)
  unfolding After mask_text
  Same-mask_text s p h =
      let out : Text = (ctx.mask s p.context).0 in (ground arith, ground (arith, text_eq_iff out s))

  Same-mask_key : (k : Text) (p : Progress S) → After (Same k p) (mask_key ctx k p)
  unfolding After mask_key
  Same-mask_key k p = elim (Bool-cases (contains protected_key_names k)) [
    | inl kept ↦ rw kept (λ h. (h, refl))
    | inr masked ↦ rw masked (Same-mask_text k p)
  ]

  Same-mask_string :
      (s : Text) (key parent : Option Text) (path : List Text) (p : Progress S)
      → After (Same (string s) p) (mask_string ctx s key parent path p)
  unfolding After mask_string
  Same-mask_string s key parent path p = elim (Bool-cases (string_exempt ctx s key parent path)) [
    | inl kept ↦ rw kept (λ h. (h, refl))
    | inr masked ↦ rw masked (
        After->>= (mask_text ctx s) (λ out. pure (string out)) p (Same s p) (Same (string s) p)
          (Same-mask_text s p) (λ out q h k. ((h k).0, ap string (h k).1)))
  ]

  Same-mask_number :
      (n : Number) (key parent : Option Text) (path : List Text) (p : Progress S)
      → After (Same (number n) p) (mask_number ctx n key parent path p)
  unfolding After mask_number
  Same-mask_number n key parent path p = elim (Bool-cases (numeric_exempt key parent path)) [
    | inl kept ↦ rw kept (λ h. (h, refl))
    | inr masked ↦ rw masked (
        After->>= (mask_text ctx (number_text ctx.show_f64 n))
          (λ out. pure (if text_eq out (number_text ctx.show_f64 n) then number n else string out))
          p (Same (number_text ctx.show_f64 n) p) (Same (number n) p)
          (Same-mask_text (number_text ctx.show_f64 n) p)
          (λ out q h k.
            ((h k).0, ground (arith, (h k).1, text_eq_iff out (number_text ctx.show_f64 n)))))
  ]

  Same-checked :
      {A : Type 0} (a : A) (d : ℕ) (m : Run (Progress S) A) (p : Progress S)
      → After (Same a p) (m p)
      → After (Same a p) ((within_depth d >> m) p)
  unfolding After within_depth
  Same-checked a d m p h = elim (Bool-cases (ltb mask_max_depth d)) [
    | inl over ↦ rw over tt
    | inr fine ↦ rw fine h
  ]

  pub Same-packed :
      {A B : Type 0} (f : A → B) (a : A) (m : Run (Progress S) A) (p q : Progress S)
      → After (Same a p) (m q)
      → After (Same (f a) p) ((m >>= λ x. pure (f x)) q)
  unfolding After
  Same-packed f a m p q h =
      After->>= m (λ x. pure (f x)) q (Same a p) (Same (f a) p) h
        (λ x r k e. ((k e).0, ap f (k e).1))

  mutual
    unfolding mask_tree After HasUniqueKeys join

    pub Same-tree :
        (v : Value) (key parent : Option Text) (path : List Text) (d : ℕ) (p : Progress S)
        → HasUniqueKeys v
        → After (Same v p) (mask_tree ctx v key parent path d p)
    Same-tree null key parent path d p u = Same-checked null d _ p (λ h. (h, refl))
    Same-tree (bool b) key parent path d p u = Same-checked (bool b) d _ p (λ h. (h, refl))
    Same-tree (number n) key parent path d p u =
        Same-checked (number n) d _ p (Same-mask_number n key parent path p)
    Same-tree (string s) key parent path d p u =
        Same-checked (string s) d _ p (Same-mask_string s key parent path p)
    Same-tree (array vs) key parent path d p u = Same-checked (array vs) d _ p (
        Same-packed array vs (mask_items ctx vs key parent path (d + 1)) p p
          (Same-items vs key parent path (d + 1) p u))
    Same-tree (object fs) key parent path d p (u, us) =
        Same-checked (object fs) d _ p (elim (Bool-cases (skips_subtree key path)) [
          | inl skip ↦ rw skip (λ h. (h, refl))
          | inr enter ↦ rw enter (
              Same-packed object fs (mask_fields ctx fs key path (d + 1) no_fields) p p
                (Same-fields fs key path (d + 1) no_fields fs p (λ _. (u, refl)) us))
        ])

    Same-items :
        (vs : Values) (key parent : Option Text) (path : List Text) (d : ℕ) (p : Progress S)
        → ItemsUnique vs
        → After (Same vs p) (mask_items ctx vs key parent path d p)
    Same-items no_items key parent path d p u = λ h. (h, refl)
    Same-items (item v vs) key parent path d p (u, us) =
        After->>= (mask_tree ctx v key parent path d) _ p (Same v p) (Same (item v vs) p)
          (Same-tree v key parent path d p u)
          (λ w q h.
            After->>= (mask_items ctx vs key parent path d) (λ ws. pure (item w ws)) q (Same vs q)
              (Same (item v vs) p) (Same-items vs key parent path d q us)
              (λ ws r k e. ((h (k e).0).0, ground (arith, (k e).1, (h (k e).0).1))))

    -- The map under way and the fields to come are the given ones as long as the flag is down.
    Same-fields :
        (fs : Fields) (key : Option Text) (path : List Text) (d : ℕ) (out all : Fields)
        (p : Progress S)
        → (p.changed ≡ false → UniqueKeys (join out fs) × (join out fs ≡ all))
        → FieldsUnique fs
        → After (Same all p) (mask_fields ctx fs key path d out p)
    Same-fields no_fields key path d out all p u us = λ h. (h, sym (join-no_fields out) ∙ (u h).1)
    Same-fields (field k v fs) key path d out all p u (us, vs) =
        After->>= (mask_key ctx k) _ p (Same k p) (Same all p) (Same-mask_key k p) (λ new_key q h.
          After->>= (mask_tree ctx v (some k) key (k ∷ path) d) _ q (Same v q) (Same all p)
            (Same-tree v (some k) key (k ∷ path) d q us)
            (λ w r h'.
              After-weaken (Same all r) (Same all p) _
                (Same-fields fs key path d (insert_key new_key w out) all r
                  (λ e.
                    put_back k v fs out all new_key w (h (h' e).0).1 (h' e).1 (u (h (h' e).0).0))
                  vs)
                (λ res t g e. ((h (h' (g e).0).0).0, (g e).1))))

  -- If the walk ends with the flag down, on a tree with no key twice in an object, the flag was
  -- down before and the masked tree is the given one: a body kept as it stands holds all of it.
  pub mask_tree-unchanged :
      (v w : Value) (key parent : Option Text) (path : List Text) (d : ℕ) (p q : Progress S)
      → HasUniqueKeys v
      → mask_tree ctx v key parent path d p ≡ (ok w, q)
      → q.changed ≡ false
      → (p.changed ≡ false) × (w ≡ v)
  mask_tree-unchanged v w key parent path d p q u e h =
      After-ok (Same v p) e (Same-tree v key parent path d p u) h
