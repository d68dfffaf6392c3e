-- ===== src/Tree/Restore/Entries.antt =====
-- src/mask/tree.rs, `restore_tree`: the entries of a restored object.
use mathlib.Core.Path.{subst}
use maskit_rs.Base.{
  ℕ, ◌+◌, ◌≤◌, ◌≡◌, ◌⊎◌, refl, Bool, true, false, ◌||◌, Text, inl, inr, sym, ◌∙◌, Bool-cases, arith,
}
use maskit_rs.Base.Map.{text_eq, text_eq_iff}
use maskit_rs.Json.{
  Value, null, bool, number, string, array, object, Fields, no_fields, field, contains_key,
}
use maskit_rs.Json.Keys.{
  UniqueKeys, join, join-no_fields, join_assoc, contains_key-join, insert_key-new,
  UniqueKeys-append,
}
use maskit_rs.Exemptions.Tables.{restore_max_depth}
use maskit_rs.Engine.{Restoring}
use maskit_rs.Tree.Restore.{
  may_hold_token, chosen_key, restore_key, put_restored, restore_tree, restore_fields,
  restore_member,
}

-- The chosen key is new to the map under way, and it is the given one or new to the object.
chosen_key-new :
    (siblings out : Fields) (k j : Text)
    → contains_key k out ≡ false
    → (contains_key (chosen_key siblings out k j) out ≡ false)
      × ((chosen_key siblings out k j ≡ k)
          ⊎ (contains_key (chosen_key siblings out k j) siblings ≡ false))
unfolding chosen_key
chosen_key-new siblings out k j h = elim (Bool-cases (text_eq j k)) [
  | inl e ↦ rw e (rw ((text_eq_iff j k).0 e) h, inl ((text_eq_iff j k).0 e))
  | inr e ↦ rw e (elim (Bool-cases (contains_key j out || contains_key j siblings)) [
    | inl taken ↦ rw taken (h, inl refl)
    | inr new ↦ rw new (ground arith, inr (ground arith))
  ])
]

module _ {S : Type 0} (restore_final : Text → Bool → Restoring S → Text × Restoring S) where
  -- Entry for entry: the key is the given one or one that the object did not have, and the value
  -- is that of the key, restored.
  unfoldable pub Restores : Fields → ℕ → Fields → Fields → Type 0
  Restores siblings depth no_fields no_fields = Unit
  Restores siblings depth no_fields (field j w gs) = ⊥
  Restores siblings depth (field k v fs) no_fields = ⊥
  Restores siblings depth (field k v fs) (field j w gs) =
      ((j ≡ k) ⊎ (contains_key j siblings ≡ false))
      × ((r : Restoring S) × (w ≡ (restore_member restore_final k v depth r).0))
      × Restores siblings depth fs gs

  restore_key-new :
      (siblings out : Fields) (k : Text) (r : Restoring S)
      → contains_key k out ≡ false
      → (contains_key (restore_key restore_final siblings out k r).0 out ≡ false)
        × (((restore_key restore_final siblings out k r).0 ≡ k)
            ⊎ (contains_key (restore_key restore_final siblings out k r).0 siblings ≡ false))
  unfolding restore_key
  restore_key-new siblings out k r h = elim (Bool-cases (may_hold_token k)) [
    | inl may ↦ rw may (chosen_key-new siblings out k (restore_final k false r).0 h)
    | inr may_not ↦ rw may_not (h, inl refl)
  ]

  pub fields_step :
      (k : Text) (v : Value) (fs siblings out : Fields) (depth : ℕ) (r : Restoring S)
      → restore_fields restore_final (field k v fs) siblings depth out r ≡ (
          let (out', r') =
            put_restored restore_final siblings k (restore_member restore_final k v depth r) out in
          restore_fields restore_final fs siblings depth out' r')
  unfolding restore_tree restore_member
  fields_step k null fs siblings out depth r = refl
  fields_step k (bool b) fs siblings out depth r = refl
  fields_step k (number n) fs siblings out depth r = refl
  fields_step k (string s) fs siblings out depth r = refl
  fields_step k (array vs) fs siblings out depth r = refl
  fields_step k (object gs) fs siblings out depth r = refl

  -- The keys to come: each one is among the object's keys and not yet in the map under way.
  abbrev Ahead : Fields → Fields → Fields → Type 0
  Ahead siblings out fs =
      (k : Text)
      → contains_key k fs ≡ true
      → (contains_key k out ≡ false) × (contains_key k siblings ≡ true)

  Ahead-next :
      (siblings out fs : Fields) (k j : Text) (v w : Value)
      → Ahead siblings out (field k v fs)
      → contains_key k fs ≡ false
      → (j ≡ k) ⊎ (contains_key j siblings ≡ false)
      → Ahead siblings (join out (field j w no_fields)) fs
  unfolding contains_key
  Ahead-next siblings out fs k j v w a u c i h =
      ground (
        arith,
        a i,
        contains_key-join i out (field j w no_fields),
        text_eq_iff j i,
        text_eq_iff k i,
      )

  fields_restored :
      (fs siblings out : Fields) (depth : ℕ) (r : Restoring S)
      → Ahead siblings out fs
      → UniqueKeys fs
      → UniqueKeys out
      → (gs : Fields) × ((restore_fields restore_final fs siblings depth out r).0 ≡ join out gs)
        × Restores siblings depth fs gs
        × UniqueKeys (join out gs)
  unfolding put_restored contains_key Restores join restore_tree
  fields_restored no_fields siblings out depth r a u uo =
      (no_fields, sym (join-no_fields out), tt, rw (join-no_fields out) uo)
  fields_restored (field k v fs) siblings out depth r a (new, u) uo =
      let (w, r1) = restore_member restore_final k v depth r in
      let (j, r2) = restore_key restore_final siblings out k r1 in
      let (free, c) = restore_key-new siblings out k r1 (a k (ground (arith, text_eq_iff k k))).0 in
      let (gs, e, rest, u') =
        fields_restored fs siblings (join out (field j w no_fields)) depth r2
          (Ahead-next siblings out fs k j v w a new c) u (UniqueKeys-append out j w uo free) in
      (
        field j w gs,
        rw (fields_step k v fs siblings out depth r)
            (rw (insert_key-new j w out free) (e ∙ join_assoc out (field j w no_fields) gs)),
        (c, (r, refl), rest),
        subst UniqueKeys (join_assoc out (field j w no_fields) gs) u',
      )

  -- Restoring an object whose keys are unique, within the depth limit, loses no entry: the restored
  -- object has as many, in the same order and with unique keys. Each key is the given one or one
  -- that the object did not have, and each value is the restored value of its key.
  pub restore_tree-Restores :
      (fs : Fields) (depth : ℕ) (r : Restoring S)
      → UniqueKeys fs
      → depth ≤ restore_max_depth
      → (gs : Fields) × ((restore_tree restore_final (object fs) depth r).0 ≡ object gs)
        × Restores fs (depth + 1) fs gs
        × UniqueKeys gs
  unfolding restore_tree join contains_key
  restore_tree-Restores fs depth r u h =
      let (gs, e, rest, u') =
        fields_restored fs fs no_fields (depth + 1) r (λ k c. (refl, c)) u tt in
      (gs, ground (arith, e), rest, u')
