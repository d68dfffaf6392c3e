-- ===== src/Json.antt =====
-- The JSON values of `serde_json`, with the order of keys preserved, and the accessors that the
-- source calls.
pub mod Keys
use maskit_rs.Base.{ℕ, Bool, true, false, if◌then◌else◌, Option, none, some, Text}
use maskit_rs.Base.Map.{text_eq}

-- `neg_int n` is -n. A float is known by its text.
pub data Number : Type 0 where
  pos_int : ℕ → Number
  neg_int : ℕ → Number
  float : Text → Number

mutual
  pub data Value : Type 0 where
    null : Value
    bool : Bool → Value
    number : Number → Value
    string : Text → Value
    array : Values → Value
    object : Fields → Value

  pub data Values : Type 0 where
    no_items : Values
    item : Value → Values → Values

  pub data Fields : Type 0 where
    no_fields : Fields
    field : Text → Value → Fields → Fields

abbrev pub as_str : Value → Option Text
as_str (string s) = some s
as_str _ = none

abbrev pub as_bool : Value → Option Bool
as_bool (bool b) = some b
as_bool _ = none

abbrev pub as_u64 : Value → Option ℕ
as_u64 (number (pos_int n)) = some n
as_u64 _ = none

abbrev pub as_array : Value → Option Values
as_array (array vs) = some vs
as_array _ = none

abbrev pub as_object : Value → Option Fields
as_object (object fs) = some fs
as_object _ = none

-- `Map::get` and `contains_key`
unfoldable pub get_key : Text → Fields → Option Value
get_key k no_fields = none
get_key k (field j v fs) = if text_eq j k then some v else get_key k fs

unfoldable pub contains_key : Text → Fields → Bool
unfolding get_key
contains_key k fs = elim (get_key k fs) [ none ↦ false | some _ ↦ true ]

-- `Map::insert`: in place where the key is there, else at the end.
unfoldable pub insert_key : Text → Value → Fields → Fields
insert_key k v no_fields = field k v no_fields
insert_key k v (field j w fs) =
    let fs' = insert_key k v fs in if text_eq j k then field j v fs else field j w fs'

-- `Value::get` with a key
unfoldable pub get : Text → Value → Option Value
unfolding get_key
get k (object fs) = get_key k fs
get k _ = none

-- `get_mut(k)` and an edit of what it finds
unfoldable pub update_key : Text → (Value → Value) → Fields → Fields
update_key k f no_fields = no_fields
update_key k f (field j v fs) =
    let fs' = update_key k f fs in if text_eq j k then field j (f v) fs else field j v fs'

unfoldable pub modify : Text → (Value → Value) → Value → Value
unfolding update_key
modify k f (object fs) = object (update_key k f fs)
modify k f v = v

-- `as_object_mut` and an insert of a text
unfoldable pub put : Text → Text → Value → Value
unfolding insert_key
put k s (object fs) = object (insert_key k (string s) fs)
put k s v = v
