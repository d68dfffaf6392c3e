-- ===== src/Tree/Mask/Scrubbed.antt =====
-- src/mask/tree.rs, `mask_tree`: which texts the masked tree holds.
use maskit_rs.Base.{
  ℕ, ◌+◌, ◌≡◌, Bool, true, false, Option, some, Text, List, ◌∷◌, inl, inr, Bool-cases, contains,
  ltb, if◌then◌else◌,
}
use maskit_rs.Base.Map.{text_eq}
use maskit_rs.Base.Results.{Run, ok, ◌>>◌, After, After->>=, After-ok, pure}
use maskit_rs.Json.{
  Number, Value, null, bool, number, string, array, object, Values, no_items, item, Fields,
  no_fields, field, insert_key,
}
use maskit_rs.Exemptions.Tables.{mask_max_depth, protected_key_names}
use maskit_rs.Tree.Mask.{
  MaskCtx, Progress, mask_text, mask_key, mask_string, mask_number, number_text, numeric_exempt,
  string_exempt, within_depth, mask_tree, mask_items, mask_fields, skips_subtree,
}

module _ (T : Text → Type 0) where
  -- Every text of a value and every key in it has the property.
  unfoldable mutual
    pub Holds : Value → Type 0
    Holds null = Unit
    Holds (bool b) = Unit
    Holds (number n) = Unit
    Holds (string s) = T s
    Holds (array vs) = HoldsItems vs
    Holds (object fs) = HoldsFields fs

    pub HoldsItems : Values → Type 0
    HoldsItems no_items = Unit
    HoldsItems (item v vs) = Holds v × HoldsItems vs

    pub HoldsFields : Fields → Type 0
    HoldsFields no_fields = Unit
    HoldsFields (field k v fs) = T k × Holds v × HoldsFields fs

  HoldsFields-insert_key :
      (k : Text) (v : Value) (fs : Fields)
      → T k
      → Holds v
      → HoldsFields fs
      → HoldsFields (insert_key k v fs)
  unfolding Holds insert_key
  HoldsFields-insert_key k v no_fields t h hs = (t, h, tt)
  HoldsFields-insert_key k v (field j w fs) t h (tj, hw, hs) = elim (Bool-cases (text_eq j k)) [
    | inl e ↦ rw e (tj, h, hs)
    | inr e ↦ rw e (tj, hw, HoldsFields-insert_key k v fs t h hs)
  ]

if_true : (A B : Type 0) (b : Bool) → b ≡ true → (if b then A else B) → A
if_true A B true e h = h
if_true A B false e h = cc

if_false : (A B : Type 0) (b : Bool) → b ≡ false → (if b then A else B) → B
if_false A B true e h = cc
if_false A B false e h = h

module _ {S : Type 0} (ctx : MaskCtx S) (T : Text → Type 0) where
  -- What is spared has the property: the texts that are exempt where they stand, and all of an
  -- object that is skipped.
  unfoldable mutual
    pub Spared : Value → Option Text → Option Text → List Text → Type 0
    Spared null key parent path = Unit
    Spared (bool b) key parent path = Unit
    Spared (number n) key parent path = Unit
    Spared (string s) key parent path = if string_exempt ctx s key parent path then T s else Unit
    Spared (array vs) key parent path = SparedItems vs key parent path
    Spared (object fs) key parent path =
        if skips_subtree key path then HoldsFields T fs else SparedFields fs key path

    pub SparedItems : Values → Option Text → Option Text → List Text → Type 0
    SparedItems no_items key parent path = Unit
    SparedItems (item v vs) key parent path =
        Spared v key parent path × SparedItems vs key parent path

    pub SparedFields : Fields → Option Text → List Text → Type 0
    SparedFields no_fields key path = Unit
    SparedFields (field k v fs) key path =
        Spared v (some k) key (k ∷ path) × SparedFields fs key path

  module _ (masks : (s : Text) (c : S) → T (ctx.mask s c).0)
      (names : (k : Text) → contains protected_key_names k ≡ true → T k) where
    After-mask_text : (s : Text) (p : Progress S) → After (λ t q. T t) (mask_text ctx s p)
    unfolding After mask_text
    After-mask_text s p = masks s p.context

    After-mask_key : (k : Text) (p : Progress S) → After (λ t q. T t) (mask_key ctx k p)
    unfolding After mask_key
    After-mask_key k p = elim (Bool-cases (contains protected_key_names k)) [
      | inl kept ↦ rw kept (names k kept)
      | inr masked ↦ rw masked (After-mask_text k p)
    ]

    After-mask_string :
        (s : Text) (key parent : Option Text) (path : List Text) (p : Progress S)
        → (string_exempt ctx s key parent path ≡ true → T s)
        → After (λ v q. Holds T v) (mask_string ctx s key parent path p)
    unfolding After mask_string Holds
    After-mask_string s key parent path p h =
        elim (Bool-cases (string_exempt ctx s key parent path)) [
          | inl kept ↦ rw kept (h kept)
          | inr masked ↦ rw masked (
              After->>= (mask_text ctx s) (λ out. pure (string out)) p (λ t q. T t)
                (λ v q. Holds T v) (After-mask_text s p) (λ out q t. t))
        ]

    number_or :
        (b : Bool) (n : Number) (t : Text) → T t → Holds T (if b then number n else string t)
    unfolding Holds
    number_or true n t h = tt
    number_or false n t h = h

    After-mask_number :
        (n : Number) (key parent : Option Text) (path : List Text) (p : Progress S)
        → After (λ v q. Holds T v) (mask_number ctx n key parent path p)
    unfolding After mask_number Holds
    After-mask_number n key parent path p = elim (Bool-cases (numeric_exempt key parent path)) [
      | inl kept ↦ rw kept tt
      | inr masked ↦ rw masked (
          After->>= (mask_text ctx (number_text ctx.show_f64 n))
            (λ out.
              pure (if text_eq out (number_text ctx.show_f64 n) then number n else string out))
            p (λ t q. T t) (λ v q. Holds T v) (After-mask_text (number_text ctx.show_f64 n) p)
            (λ out q t. number_or (text_eq out (number_text ctx.show_f64 n)) n out t))
    ]

    After-checked :
        {A : Type 0} (P : A → Type 0) (d : ℕ) (m : Run (Progress S) A) (p : Progress S)
        → After (λ a q. P a) (m p)
        → After (λ a q. P a) ((within_depth d >> m) p)
    unfolding After within_depth
    After-checked P d m p h = elim (Bool-cases (ltb mask_max_depth d)) [
      | inl over ↦ rw over tt
      | inr fine ↦ rw fine h
    ]

    mutual
      unfolding mask_tree After Spared Holds

      tree-Holds :
          (v : Value) (key parent : Option Text) (path : List Text) (d : ℕ) (p : Progress S)
          → Spared v key parent path
          → After (λ w q. Holds T w) (mask_tree ctx v key parent path d p)
      tree-Holds null key parent path d p s = After-checked (Holds T) d _ p tt
      tree-Holds (bool b) key parent path d p s = After-checked (Holds T) d _ p tt
      tree-Holds (number n) key parent path d p s =
          After-checked (Holds T) d _ p (After-mask_number n key parent path p)
      tree-Holds (string t) key parent path d p s = After-checked (Holds T) d _ p (
          After-mask_string t key parent path p
            λ e. if_true (T t) Unit (string_exempt ctx t key parent path) e s)
      tree-Holds (array vs) key parent path d p s = After-checked (Holds T) d _ p (
          After->>= (mask_items ctx vs key parent path (d + 1)) (λ out. pure (array out)) p
            (λ ws q. HoldsItems T ws) (λ w q. Holds T w)
            (items-HoldsItems vs key parent path (d + 1) p s) (λ ws q h. h))
      tree-Holds (object fs) key parent path d p s =
          After-checked (Holds T) d _ p (elim (Bool-cases (skips_subtree key path)) [
            | inl skip ↦ rw skip (
                if_true (HoldsFields T fs) (SparedFields fs key path) (skips_subtree key path) skip
                  s)
            | inr enter ↦ rw enter (
                After->>= (mask_fields ctx fs key path (d + 1) no_fields) (λ out. pure (object out))
                  p (λ gs q. HoldsFields T gs) (λ w q. Holds T w)
                  (fields-HoldsFields fs key path (d + 1) no_fields p
                    (if_false (HoldsFields T fs) (SparedFields fs key path) (skips_subtree key path)
                      enter s)
                    tt)
                  (λ gs q h. h))
          ])

      items-HoldsItems :
          (vs : Values) (key parent : Option Text) (path : List Text) (d : ℕ) (p : Progress S)
          → SparedItems vs key parent path
          → After (λ ws q. HoldsItems T ws) (mask_items ctx vs key parent path d p)
      items-HoldsItems no_items key parent path d p s = tt
      items-HoldsItems (item v vs) key parent path d p (s, s') =
          After->>= (mask_tree ctx v key parent path d) _ p (λ w q. Holds T w)
            (λ ws q. HoldsItems T ws) (tree-Holds v key parent path d p s)
            (λ w q h.
              After->>= (mask_items ctx vs key parent path d) (λ ws. pure (item w ws)) q
                (λ ws q. HoldsItems T ws) (λ ws q. HoldsItems T ws)
                (items-HoldsItems vs key parent path d q s') (λ ws r k. (h, k)))

      fields-HoldsFields :
          (fs : Fields) (key : Option Text) (path : List Text) (d : ℕ) (out : Fields)
          (p : Progress S)
          → SparedFields fs key path
          → HoldsFields T out
          → After (λ gs q. HoldsFields T gs) (mask_fields ctx fs key path d out p)
      fields-HoldsFields no_fields key path d out p s h = h
      fields-HoldsFields (field k v fs) key path d out p (s, s') h =
          After->>= (mask_key ctx k) _ p (λ t q. T t) (λ gs q. HoldsFields T gs)
            (After-mask_key k p)
            (λ new_key q t.
              After->>= (mask_tree ctx v (some k) key (k ∷ path) d) _ q (λ w q. Holds T w)
                (λ gs q. HoldsFields T gs) (tree-Holds v (some k) key (k ∷ path) d q s)
                (λ w r k.
                  fields-HoldsFields fs key path d (insert_key new_key w out) r s'
                    (HoldsFields-insert_key T new_key w out t k h)))

    -- Nothing gets past the walk: let a property hold of every text that masking gives, of the
    -- protected key names and of what is spared in the tree. Then it holds of every text and
    -- every key of the masked tree.
    pub mask_tree-Holds :
        (v w : Value) (key parent : Option Text) (path : List Text) (d : ℕ) (p q : Progress S)
        → Spared v key parent path
        → mask_tree ctx v key parent path d p ≡ (ok w, q)
        → Holds T w
    mask_tree-Holds v w key parent path d p q s e =
        After-ok (λ w q. Holds T w) e (tree-Holds v key parent path d p s)
