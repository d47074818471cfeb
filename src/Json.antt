-- ===== src/Json.antt =====
-- `serde_json::Value`, the accessors that the program calls, and the library behind them.
use Prim.Native.Nat.{compare, Ordering}
use starframe.Prelude.Compare.{compare_list}
use starframe.Prelude.{
  not, ◌&&◌, ℕ, suc, Bool, true, false, Option, none, some, List, [], ◌∷◌, Text, text_eq,
  if◌then◌else◌,
}

-- A signed 64-bit integer: `negsuc n` is `-(n + 1)`.
pub data ℤ : Type 0 where
  pos negsuc : ℕ → ℤ

-- `value.unsigned_abs()`
abbrev pub unsigned_abs : ℤ → ℕ
unsigned_abs (pos n) = n
unsigned_abs (negsuc n) = suc n

-- The numbers of the library are a parameter. `Values` and `Members` are the contents of an array
-- and of an object.
mutual
  pub data Value (N : Type 0) : Type 0 where
    null : Value N
    boolean : Bool → Value N
    number : N → Value N
    string : Text → Value N
    array : Values N → Value N
    object : Members N → Value N

  pub data Values (N : Type 0) : Type 0 where
    no_values : Values N
    value : Value N → Values N → Values N

  pub data Members (N : Type 0) : Type 0 where
    no_members : Members N
    member : Text → Value N → Members N → Members N

-- What the program uses of the `serde_json` crate and of `f64`.
pub record JsonLibrary : Type 1 where
  pub Number : Type 0
  pub number_eq : Number → Number → Bool
  pub as_u64 : Number → Option ℕ
  pub as_i64 : Number → Option ℤ
  pub Float : Type 0
  pub as_f64 : Number → Option Float
  pub is_finite : Float → Bool
  -- `value.fract() == 0.0`
  pub is_whole : Float → Bool
  -- `value.abs() <= limit as f64`
  pub abs_at_most : Float → ℕ → Bool
  -- `value as i64`
  pub to_i64 : Float → ℤ
  pub from_u64 : ℕ → Number
  -- The syntax of a document, with an object's members in their order, repeated keys included.
  pub from_slice : Text → Option (Value Number)
  -- The text of the error for a document that is refused.
  pub error : Text → Text

module _ {N : Type 0} where
  unfoldable pub values_of : Values N → List (Value N)
  values_of no_values = []
  values_of (value first rest) = first ∷ values_of rest

  unfoldable pub members_of : Members N → List (Text × Value N)
  members_of no_members = []
  members_of (member key first rest) = (key, first) ∷ members_of rest

  unfoldable pub as_array : Value N → Option (List (Value N))
  unfolding values_of
  as_array (array values) = some (values_of values)
  as_array _ = none

  unfoldable pub as_object : Value N → Option (List (Text × Value N))
  unfolding members_of
  as_object (object members) = some (members_of members)
  as_object _ = none

  abbrev pub as_str : Value N → Option Text
  as_str (string text) = some text
  as_str _ = none

  abbrev pub as_bool : Value N → Option Bool
  as_bool (boolean b) = some b
  as_bool _ = none

  abbrev pub is_null : Value N → Bool
  is_null null = true
  is_null _ = false

  unfoldable pub get : Text → List (Text × Value N) → Option (Value N)
  get key [] = none
  get key ((other, v) ∷ members) = if text_eq other key then some v else get key members

  -- `value[key]`: null where the value is no object or has no such key.
  unfoldable pub at : Value N → Text → Value N
  unfolding members_of get
  at (object members) key = elim (get key (members_of members)) [ none ↦ null | some v ↦ v ]
  at _ key = null

  -- `object.contains_key(key)`
  unfoldable pub contains_key : List (Text × Value N) → Text → Bool
  unfolding get
  contains_key members key = elim (get key members) [ none ↦ false | some v ↦ true ]

module _ (json : JsonLibrary) where
  abbrev pub Json : Type 0
  Json = Value json.Number

  -- `value.as_u64()`
  unfoldable pub value_as_u64 : Json → Option ℕ
  value_as_u64 (number n) = json.as_u64 n
  value_as_u64 _ = none

  -- `value.as_i64()`
  unfoldable pub value_as_i64 : Json → Option ℤ
  value_as_i64 (number n) = json.as_i64 n
  value_as_i64 _ = none

  -- `a == b`: objects are compared in the order of their keys.
  unfoldable mutual
    pub value_eq : Json → Json → Bool
    value_eq null null = true
    value_eq (boolean true) (boolean b) = b
    value_eq (boolean false) (boolean b) = not b
    value_eq (number m) (number n) = json.number_eq m n
    value_eq (string a) (string b) = text_eq a b
    value_eq (array a) (array b) = values_eq a b
    value_eq (object a) (object b) = members_eq a b
    value_eq _ _ = false

    pub values_eq : Values json.Number → Values json.Number → Bool
    values_eq no_values no_values = true
    values_eq (value a rest) (value b others) = value_eq a b && values_eq rest others
    values_eq _ _ = false

    pub members_eq : Members json.Number → Members json.Number → Bool
    members_eq no_members no_members = true
    members_eq (member k a rest) (member l b others) =
        text_eq k l && value_eq a b && members_eq rest others
    members_eq _ _ = false

  -- `map.insert(key, value)` of a map in the order of its keys: `none` where the key is there.
  unfoldable pub insert_new : Text → Json → Members json.Number → Option (Members json.Number)
  insert_new key v no_members = some (member key v no_members)
  insert_new key v (member other w members) =
      let rest = insert_new key v members in
      elim (compare_list compare key other) [
        | Ordering.lt ↦ some (member key v (member other w members))
        | Ordering.eq ↦ none
        | Ordering.gt ↦ elim rest [ none ↦ none | some later ↦ some (member other w later) ]
      ]
