-- ===== src/Json/Keys.antt =====
-- The keys of a `serde_json` map: each is there once, and an insert of a new one goes to the end.
use maskit_rs.Base.{◌≡◌, refl, false, ◌||◌, Text, arith, ap}
use maskit_rs.Base.Map.{text_eq_iff}
use maskit_rs.Json.{
  Value, null, bool, number, string, array, object, Values, no_items, item, Fields, no_fields,
  field, contains_key, insert_key,
}

-- No key twice.
abbrev pub UniqueKeys : Fields → Type 0
UniqueKeys no_fields = Unit
UniqueKeys (field k v fs) = (contains_key k fs ≡ false) × UniqueKeys fs

-- No key twice in any object of a value.
unfoldable mutual
  pub HasUniqueKeys : Value → Type 0
  HasUniqueKeys null = Unit
  HasUniqueKeys (bool b) = Unit
  HasUniqueKeys (number n) = Unit
  HasUniqueKeys (string s) = Unit
  HasUniqueKeys (array vs) = ItemsUnique vs
  HasUniqueKeys (object fs) = UniqueKeys fs × FieldsUnique fs

  pub ItemsUnique : Values → Type 0
  ItemsUnique no_items = Unit
  ItemsUnique (item v vs) = HasUniqueKeys v × ItemsUnique vs

  pub FieldsUnique : Fields → Type 0
  FieldsUnique no_fields = Unit
  FieldsUnique (field k v fs) = HasUniqueKeys v × FieldsUnique fs

unfoldable pub join : Fields → Fields → Fields
join no_fields gs = gs
join (field k v fs) gs = field k v (join fs gs)

pub join-no_fields : (fs : Fields) → join fs no_fields ≡ fs
unfolding join
join-no_fields no_fields = refl
join-no_fields (field k v fs) = ap (field k v) (join-no_fields fs)

pub contains_key-join :
    (k : Text) (fs gs : Fields)
    → contains_key k (join fs gs) ≡ (contains_key k fs || contains_key k gs)
unfolding contains_key join
contains_key-join k no_fields gs = ground arith
contains_key-join k (field j v fs) gs = ground (arith, contains_key-join k fs gs)

-- An insert of a key that is not there goes to the end.
pub insert_key-new :
    (k : Text) (v : Value) (fs : Fields)
    → contains_key k fs ≡ false
    → insert_key k v fs ≡ join fs (field k v no_fields)
unfolding contains_key insert_key join
insert_key-new k v no_fields h = refl
insert_key-new k v (field j w fs) h = ground (arith, insert_key-new k v fs)

pub join_assoc : (fs gs hs : Fields) → join (join fs gs) hs ≡ join fs (join gs hs)
unfolding join
join_assoc no_fields gs hs = refl
join_assoc (field k v fs) gs hs = ap (field k v) (join_assoc fs gs hs)

-- A key of a joined map whose keys are unique is not in the front part too.
pub UniqueKeys-join :
    (fs : Fields) (k : Text) (v : Value) (gs : Fields)
    → UniqueKeys (join fs (field k v gs))
    → contains_key k fs ≡ false
unfolding contains_key join
UniqueKeys-join no_fields k v gs h = refl
UniqueKeys-join (field j w fs) k v gs (h, hs) = ground (
  arith,
  UniqueKeys-join fs k v gs hs,
  contains_key-join j fs (field k v gs),
  text_eq_iff j k,
  text_eq_iff k j,
)

pub join-insert_key :
    (fs : Fields) (k : Text) (v : Value) (gs : Fields)
    → UniqueKeys (join fs (field k v gs))
    → join (insert_key k v fs) gs ≡ join fs (field k v gs)
unfolding join
join-insert_key fs k v gs h =
    rw (insert_key-new k v fs (UniqueKeys-join fs k v gs h))
      (join_assoc fs (field k v no_fields) gs)

pub UniqueKeys-append :
    (fs : Fields) (k : Text) (v : Value)
    → UniqueKeys fs
    → contains_key k fs ≡ false
    → UniqueKeys (join fs (field k v no_fields))
unfolding join contains_key
UniqueKeys-append no_fields k v u h = (refl, tt)
UniqueKeys-append (field j w fs) k v (new, u) h = (
  ground (
    arith,
    contains_key-join j fs (field k v no_fields),
    new,
    h,
    text_eq_iff j k,
    text_eq_iff k j,
  ),
  UniqueKeys-append fs k v u (ground arith),
)
