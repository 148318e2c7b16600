-- ===== src/Options/PropertyBag.antt =====
-- libpyramidizer/src/commandlineoptions.cpp: `TryParseInputStreamCreationPropertyBag`. What
-- rapidjson parses is a parameter: the members of an object, or `none` for anything else. libCZI's
-- table of properties is a list; of a `std::map` the order is left out.
pub mod Cut
pub mod Members
pub mod Filled
use mathlib.Core.Option
use czi_pyramidizer.Prelude.{
  List, [], ◌∷◌, ◌++◌, Option, none, some, Bool, true, false, ◌==◌, if◌then◌else◌,
}
use czi_pyramidizer.Prelude.Int.{ℤ}
use czi_pyramidizer.Console.{Text}
use czi_pyramidizer.CheckForPyramid.{find}
use czi_pyramidizer.Background.{same_text}

pub data JsonValue : Type 0 where
  json_string : Text → JsonValue
  json_bool : Bool → JsonValue
  json_int : ℤ → JsonValue
  json_other : JsonValue

-- `GetString()` as a `std::string`: the text up to its first NUL character.
unfoldable pub until_nul : Text → Text
until_nul [] = []
until_nul (c ∷ s) = let rest = c ∷ until_nul s in if c == 0 then [] else rest

-- libCZI's `StreamsFactory::Property` and its types.
pub data Property : Type 0 where
  string_property : Text → Property
  boolean_property : Bool → Property
  int32_property : ℤ → Property

pub data PropertyType : Type 0 where
  string_type boolean_type int32_type other_type : PropertyType

pub record StreamPropertyInfo : Type 0 where
  pub property_name : Text
  pub property_id : ℤ
  pub property_type : PropertyType

abbrev pub PropertyBag : Type 0
PropertyBag = List (ℤ × Property)

-- `map::insert`, which keeps the value of a key that is there.
unfoldable pub insert_new : ℤ → Property → PropertyBag → PropertyBag
insert_new key value bag = elim (find key bag) [ none ↦ bag ++ (key, value) ∷ [] | some old ↦ bag ]

-- The loop over the table, and what stands at the index that it finds.
unfoldable pub find_property : Text → List StreamPropertyInfo → Option StreamPropertyInfo
find_property name [] = none
find_property name (info ∷ infos) =
    if same_text name info.property_name then some info else find_property name infos

-- The switch: the value as a property of the type.
unfoldable pub property_of : PropertyType → JsonValue → Option Property
unfolding until_nul
property_of string_type (json_string text) = some (string_property (until_nul text))
property_of boolean_type (json_bool b) = some (boolean_property b)
property_of int32_type (json_int z) = some (int32_property z)
property_of _ _ = none

-- One member: its key and property, or the return of `false`.
unfoldable pub read_member : List StreamPropertyInfo → JsonValue × JsonValue → Option (ℤ × Property)
unfolding find_property property_of until_nul
read_member infos (json_string name, value) = elim (find_property (until_nul name) infos) [
  | none ↦ none
  | some info ↦ elim (property_of info.property_type value) [
    | none ↦ none
    | some property ↦ some (info.property_id, property)
  ]
]
read_member infos (json_bool b, value) = none
read_member infos (json_int z, value) = none
read_member infos (json_other, value) = none

-- The loop over the members; `none` for a null pointer to the bag.
unfoldable pub read_members :
    List StreamPropertyInfo
    → List (JsonValue × JsonValue)
    → Option PropertyBag
    → Bool × Option PropertyBag
unfolding read_member insert_new
read_members infos [] property_bag = (true, property_bag)
read_members infos (member ∷ members) property_bag = elim (read_member infos member) [
  | none ↦ (false, property_bag)
  | some entry ↦ read_members infos members (Option.map (insert_new entry.0 entry.1) property_bag)
]

unfoldable pub try_parse_input_stream_creation_property_bag :
    List StreamPropertyInfo
    → Option (List (JsonValue × JsonValue))
    → Option PropertyBag
    → Bool × Option PropertyBag
unfolding read_members
try_parse_input_stream_creation_property_bag infos none property_bag = (false, property_bag)
try_parse_input_stream_creation_property_bag infos (some members) property_bag =
    read_members infos members property_bag
