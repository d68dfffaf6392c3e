-- ===== src/Tree/Mask/Depth.antt =====
-- src/mask/tree.rs, `mask_tree`: how deep the walk goes.
use Prim.Native.Nat.{max}
use maskit_rs.Base.{
  ℕ, suc, ◌+◌, ◌≡◌, refl, false, ◌||◌, Option, some, Text, List, ◌∷◌, ◌∙◌, inl, inr, Bool-cases,
  ltb, if◌then◌else◌, arith,
}
use maskit_rs.Base.Results.{Run, ◌>>=◌, ◌>>◌, fails, fails->>=, pure}
use maskit_rs.Json.{
  Number, Value, null, bool, number, string, array, object, Values, no_items, item, Fields,
  no_fields, field, insert_key,
}
use maskit_rs.Exemptions.Tables.{mask_max_depth}
use maskit_rs.Tree.Mask.{
  MaskCtx, Progress, mask_text, mask_key, mask_string, mask_number, within_depth, mask_tree,
  mask_items, mask_fields, skips_subtree,
}

-- The levels below a value that the walk enters: none below an object that it skips.
unfoldable mutual
  pub levels : Value → Option Text → List Text → ℕ
  levels null key path = 0
  levels (bool b) key path = 0
  levels (number n) key path = 0
  levels (string s) key path = 0
  levels (array vs) key path = levels_items vs key path
  levels (object fs) key path = if skips_subtree key path then 0 else levels_fields fs path

  pub levels_items : Values → Option Text → List Text → ℕ
  levels_items no_items key path = 0
  levels_items (item v vs) key path = max (suc (levels v key path)) (levels_items vs key path)

  pub levels_fields : Fields → List Text → ℕ
  levels_fields no_fields path = 0
  levels_fields (field k v fs) path =
      max (suc (levels v (some k) (k ∷ path))) (levels_fields fs path)

module _ {S : Type 0} (ctx : MaskCtx S) where
  fails-mask_text : (s : Text) (p : Progress S) → fails (mask_text ctx s p) ≡ false
  unfolding fails mask_text
  fails-mask_text s p = refl

  fails-mask_key : (k : Text) (p : Progress S) → fails (mask_key ctx k p) ≡ false
  unfolding fails mask_key
  fails-mask_key k p = ground (arith, fails-mask_text k p)

  fails-mask_string :
      (s : Text) (key parent : Option Text) (path : List Text) (p : Progress S)
      → fails (mask_string ctx s key parent path p) ≡ false
  unfolding fails mask_string
  fails-mask_string s key parent path p = ground arith

  fails-mask_number :
      (n : Number) (key parent : Option Text) (path : List Text) (p : Progress S)
      → fails (mask_number ctx n key parent path p) ≡ false
  unfolding fails mask_number
  fails-mask_number n key parent path p = ground arith

  fails-within_depth :
      (depth : ℕ) (p : Progress S) → fails (within_depth {S = S} depth p) ≡ ltb mask_max_depth depth
  unfolding fails within_depth
  fails-within_depth depth p = ground arith

  -- Past the limit the first step fails; within it, the rest decides.
  fails-checked :
      {A : Type 0} (d n : ℕ) (m : Run (Progress S) A) (p : Progress S)
      → (ltb mask_max_depth d ≡ false → fails (m p) ≡ ltb mask_max_depth (d + n))
      → fails ((within_depth d >> m) p) ≡ ltb mask_max_depth (d + n)
  unfolding fails within_depth
  fails-checked d n m p h = elim (Bool-cases (ltb mask_max_depth d)) [
    | inl over ↦ ground arith
    | inr fine ↦ rw fine (h fine)
  ]

  -- A last step that only packs the result does not fail.
  fails-packed :
      {A B : Type 0} (f : A → B) (m : Run (Progress S) A) (p : Progress S)
      → fails ((m >>= λ a. pure (f a)) p) ≡ fails (m p)
  unfolding fails
  fails-packed f m p =
      ground (arith, fails->>= m (λ a. pure (f a)) p (fails (m p)) false refl (λ a s. refl))

  over-max :
      (d a b : ℕ)
      → ltb mask_max_depth (d + max a b)
        ≡ (ltb mask_max_depth (d + a) || ltb mask_max_depth (d + b))
  over-max d a b = ground arith

  mutual
    unfolding levels mask_tree fails within_depth

    fails-tree :
        (v : Value) (key parent : Option Text) (path : List Text) (d : ℕ) (p : Progress S)
        → fails (mask_tree ctx v key parent path d p) ≡ ltb mask_max_depth (d + levels v key path)
    fails-tree null key parent path d p = ground arith
    fails-tree (bool b) key parent path d p = ground arith
    fails-tree (number n) key parent path d p =
        ground (arith, fails-mask_number n key parent path p)
    fails-tree (string s) key parent path d p =
        ground (arith, fails-mask_string s key parent path p)
    fails-tree (array vs) key parent path d p = fails-checked d (levels_items vs key path) _ p λ h.
        fails-packed array (mask_items ctx vs key parent path (d + 1)) p
        ∙ fails-items vs key parent path d p h
    fails-tree (object fs) key parent path d p = elim (Bool-cases (skips_subtree key path)) [
      | inl skip ↦ rw skip (fails-checked d 0 (pure (object fs)) p λ h. ground arith)
      | inr enter ↦ rw enter (
          fails-checked d (levels_fields fs path) _ p λ h.
            fails-packed object (mask_fields ctx fs key path (d + 1) no_fields) p
            ∙ fails-fields fs key path d no_fields p h)
    ]

    fails-items :
        (vs : Values) (key parent : Option Text) (path : List Text) (d : ℕ) (p : Progress S)
        → ltb mask_max_depth d ≡ false
        → fails (mask_items ctx vs key parent path (d + 1) p)
          ≡ ltb mask_max_depth (d + levels_items vs key path)
    fails-items no_items key parent path d p h = ground arith
    fails-items (item v vs) key parent path d p h =
        fails->>= (mask_tree ctx v key parent path (d + 1)) _ p _ _
          (fails-tree v key parent path (d + 1) p)
          (λ w q.
            fails-packed (item w) (mask_items ctx vs key parent path (d + 1)) q
            ∙ fails-items vs key parent path d q h)
        ∙ ground (arith, over-max d (suc (levels v key path)) (levels_items vs key path))

    fails-fields :
        (fs : Fields) (key : Option Text) (path : List Text) (d : ℕ) (out : Fields) (p : Progress S)
        → ltb mask_max_depth d ≡ false
        → fails (mask_fields ctx fs key path (d + 1) out p)
          ≡ ltb mask_max_depth (d + levels_fields fs path)
    fails-fields no_fields key path d out p h = ground arith
    fails-fields (field k v fs) key path d out p h =
        fails->>= (mask_key ctx k) _ p false _ (fails-mask_key k p) (λ new_key q.
          fails->>= (mask_tree ctx v (some k) key (k ∷ path) (d + 1)) _ q _ _
            (fails-tree v (some k) key (k ∷ path) (d + 1) q)
            (λ w r. fails-fields fs key path d (insert_key new_key w out) r h))
        ∙ ground (arith, over-max d (suc (levels v (some k) (k ∷ path))) (levels_fields fs path))

  -- The walk from a level fails exactly when it enters a level below the limit of `MASK_MAX_DEPTH`:
  -- arrays and objects count, an object that is skipped is not entered, and nothing else fails.
  pub fails-mask_tree :
      (v : Value) (key parent : Option Text) (path : List Text) (d : ℕ) (p : Progress S)
      → fails (mask_tree ctx v key parent path d p) ≡ ltb mask_max_depth (d + levels v key path)
  fails-mask_tree v key parent path d p = fails-tree v key parent path d p
