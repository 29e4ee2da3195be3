-- ===== src/Agent/Json.antt =====
-- `serde_json::Value`. A number is kept as its text, and an object as its fields in order.
use feather_mesh.Prelude.{
  ℕ, suc, ◌+◌, ltb, if◌then◌else◌, [], ◌∷◌, Bool, Option, none, some, Text, codes, text_eq,
}
use feather_mesh.Std.Decimal.{parse_usize}

mutual
  pub data Json : Type 0 where
    null : Json
    bool : Bool → Json
    number string : Text → Json
    array : Items → Json
    object : Fields → Json

  pub data Items : Type 0 where
    no_items : Items
    item : Json → Items → Items

  pub data Fields : Type 0 where
    no_fields : Fields
    field : Text → Json → Fields → Fields

-- `Value::as_str`
unfoldable pub as_str : Json → Option Text
as_str (string s) = some s
as_str v = none

unfoldable pub item_count : Items → ℕ
item_count no_items = 0
item_count (item v vs) = suc (item_count vs)

-- `String::len`, of a text in UTF-8.
unfoldable pub len_utf8 : ℕ → ℕ
len_utf8 c = if ltb c 0x80 then 1 else if ltb c 0x800 then 2 else if ltb c 0x10000 then 3 else 4

unfoldable pub byte_length : Text → ℕ
unfolding len_utf8
byte_length [] = 0
byte_length (c ∷ s) = len_utf8 c + byte_length s

-- `Value::get` of a key, `Value::as_array` and its first item, and `Value::as_u64`.
unfoldable pub field_of : Text → Fields → Option Json
unfolding text_eq
field_of k no_fields = none
field_of k (field j v fs) = if text_eq j k then some v else field_of k fs

unfoldable pub get : Text → Json → Option Json
unfolding field_of
get k (object fs) = field_of k fs
get k v = none

unfoldable pub first_item : Json → Option Json
first_item (array (item v vs)) = some v
first_item v = none

unfoldable pub as_u64 : Json → Option ℕ
unfolding parse_usize
as_u64 (number s) = parse_usize s
as_u64 v = none

-- The pointer `/0`.
unfoldable pub at_zero : Json → Option Json
unfolding get first_item
at_zero (object fs) = get (codes "0") (object fs)
at_zero v = first_item v
