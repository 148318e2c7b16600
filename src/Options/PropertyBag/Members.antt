-- ===== src/Options/PropertyBag/Members.antt =====
-- What the members of a JSON object stand for, and that they are read as that.
use czi_pyramidizer.Prelude.{
  ◌≡◌, ◌≢◌, refl, ap, ◌∙◌, sym, inl, inr, arith, List, [], ◌∷◌, ◌++◌, none, some, Bool, true, false,
  Bool-cases, Option-cases, some_injective, All,
}
use czi_pyramidizer.Prelude.Int.{ℤ}
use czi_pyramidizer.Console.{Text}
use czi_pyramidizer.Background.{same_text}
use czi_pyramidizer.Background.Light.{same_text→≡}
use czi_pyramidizer.Options.PropertyBag.Cut.{IsCut, until_nul-IsCut, until_nul-cut}
use czi_pyramidizer.Options.PropertyBag.{
  JsonValue, json_string, json_bool, json_int, json_other, Property, string_property,
  boolean_property, int32_property, PropertyType, string_type, boolean_type, int32_type, other_type,
  StreamPropertyInfo, until_nul, find_property, property_of, read_member,
}

-- The first entry of the table with the name.
pub record IsFirst (name : Text) (infos : List StreamPropertyInfo) (info : StreamPropertyInfo)
    : Type 0 where
  pub before : List StreamPropertyInfo
  pub after : List StreamPropertyInfo
  pub is_split : infos ≡ before ++ info ∷ after
  pub others : All (λ other. name ≢ other.property_name) before
  pub named : name ≡ info.property_name

-- The value is of the type, and is that property.
abbrev pub HasType : PropertyType → JsonValue → Property → Type 0
HasType string_type value property =
    (text : Text) × (cut : Text) × (value ≡ json_string text)
    × IsCut text cut
    × (property ≡ string_property cut)
HasType boolean_type value property =
    (b : Bool) × (value ≡ json_bool b) × (property ≡ boolean_property b)
HasType int32_type value property = (z : ℤ) × (value ≡ json_int z) × (property ≡ int32_property z)
HasType other_type value property = ⊥

-- A member stands for a key and its property.
pub record StandsFor (infos : List StreamPropertyInfo) (member : JsonValue × JsonValue)
    (entry : ℤ × Property) : Type 0 where
  pub text : Text
  pub name : Text
  pub info : StreamPropertyInfo
  pub has_name : member.0 ≡ json_string text
  pub cut : IsCut text name
  pub first : IsFirst name infos info
  pub key_is : entry.0 ≡ info.property_id
  pub typed : HasType info.property_type member.1 entry.1

abbrev pub AllStandFor :
    List StreamPropertyInfo → List (JsonValue × JsonValue) → List (ℤ × Property) → Type 0
AllStandFor infos [] [] = Unit
AllStandFor infos [] (entry ∷ entries) = ⊥
AllStandFor infos (member ∷ members) [] = ⊥
AllStandFor infos (member ∷ members) (entry ∷ entries) =
    StandsFor infos member entry × AllStandFor infos members entries

same_text_refl : (s : Text) → same_text s s ≡ true
unfolding same_text
same_text_refl [] = refl
same_text_refl (c ∷ s) = ground (arith, same_text_refl s)

≡→same_text : (s t : Text) → s ≡ t → same_text s t ≡ true
≡→same_text s t e = rw e (same_text_refl t)

not_same : (s t : Text) → s ≢ t → same_text s t ≡ false
not_same s t h = elim (Bool-cases (same_text s t)) [
  | inl e ↦ absurd (h (same_text→≡ s t e))
  | inr e ↦ e
]

differ : (s t : Text) → same_text s t ≡ false → s ≢ t
differ s t h e = let k = ≡→same_text s t e in cc

first-found :
    (name : Text) (before : List StreamPropertyInfo) (info : StreamPropertyInfo)
    (after : List StreamPropertyInfo)
    → All (λ other. name ≢ other.property_name) before
    → name ≡ info.property_name
    → find_property name (before ++ info ∷ after) ≡ some info
unfolding find_property
first-found name [] info after h e = rw (≡→same_text name info.property_name e)
first-found name (other ∷ before) info after (h, hs) e =
    rw (not_same name other.property_name h) (first-found name before info after hs e)

found_first_lem :
    (name : Text) (infos : List StreamPropertyInfo) (info : StreamPropertyInfo)
    → find_property name infos ≡ some info
    → IsFirst name infos info
unfolding find_property
found_first_lem name [] info e = cc
found_first_lem name (other ∷ infos) info e =
    elim (Bool-cases (same_text name other.property_name)) [
      | inl same ↦
          let k : other ≡ info = some_injective (rw same at e) in
          record {
            before = [];
            after = infos;
            is_split = ap (λ x. x ∷ infos) k;
            others = tt;
            named = same_text→≡ name other.property_name same ∙ ap (λ x. x.property_name) k;
          }
      | inr h ↦
          let later = found_first_lem name infos info (rw h at e) in
          record {
            before = other ∷ later.before;
            after = later.after;
            is_split = ap (λ l. other ∷ l) later.is_split;
            others = (differ name other.property_name h, later.others);
            named = later.named;
          }
    ]

typed-property :
    (type : PropertyType) (value : JsonValue) (property : Property)
    → HasType type value property
    → property_of type value ≡ some property
unfolding property_of
typed-property string_type value property (text, cut, e, c, k) =
    rw (e, k, until_nul-cut text cut c) refl
typed-property boolean_type value property (x, e, k) = rw (e, k)
typed-property int32_type value property (x, e, k) = rw (e, k)
typed-property other_type value property h = elim h [ ]

property-typed :
    (type : PropertyType) (value : JsonValue) (property : Property)
    → property_of type value ≡ some property
    → HasType type value property
unfolding property_of
property-typed string_type (json_string x) property e =
    (x, until_nul x, refl, until_nul-IsCut x, sym (some_injective e))
property-typed boolean_type (json_bool x) property e = (x, refl, sym (some_injective e))
property-typed int32_type (json_int x) property e = (x, refl, sym (some_injective e))
property-typed string_type (json_bool x) property e = cc
property-typed string_type (json_int x) property e = cc
property-typed string_type json_other property e = cc
property-typed boolean_type (json_string x) property e = cc
property-typed boolean_type (json_int x) property e = cc
property-typed boolean_type json_other property e = cc
property-typed int32_type (json_string x) property e = cc
property-typed int32_type (json_bool x) property e = cc
property-typed int32_type json_other property e = cc
property-typed other_type (json_string x) property e = cc
property-typed other_type (json_bool x) property e = cc
property-typed other_type (json_int x) property e = cc
property-typed other_type json_other property e = cc

-- The two look-ups of a member with a name.
read_found :
    (infos : List StreamPropertyInfo) (name : Text) (value : JsonValue) (info : StreamPropertyInfo)
    (property : Property)
    → find_property (until_nul name) infos ≡ some info
    → property_of info.property_type value ≡ some property
    → read_member infos (json_string name, value) ≡ some (info.property_id, property)
unfolding read_member
read_found infos name value info property e k = rw (read_member, e, k)

read_unknown :
    (infos : List StreamPropertyInfo) (name : Text) (value : JsonValue)
    → find_property (until_nul name) infos ≡ none
    → read_member infos (json_string name, value) ≡ none
unfolding read_member
read_unknown infos name value e = rw (read_member, e)

read_mistyped :
    (infos : List StreamPropertyInfo) (name : Text) (value : JsonValue) (info : StreamPropertyInfo)
    → find_property (until_nul name) infos ≡ some info
    → property_of info.property_type value ≡ none
    → read_member infos (json_string name, value) ≡ none
unfolding read_member
read_mistyped infos name value info e k = rw (read_member, e, k)

pub StandsFor-read :
    (infos : List StreamPropertyInfo) (member : JsonValue × JsonValue) (entry : ℤ × Property)
    → StandsFor infos member entry
    → read_member infos member ≡ some entry
StandsFor-read infos (key, value) (id, property) s =
    let f = s.first in
    let found : find_property s.name infos ≡ some s.info =
      rw f.is_split (first-found s.name f.before s.info f.after f.others f.named) in
    let looked_up : find_property (until_nul s.text) infos ≡ some s.info =
      ap (λ n. find_property n infos) (until_nul-cut s.text s.name s.cut) ∙ found in
    rw (s.has_name, s.key_is)
      (read_found infos s.text value s.info property looked_up
        (typed-property s.info.property_type value property s.typed))

pub read-StandsFor :
    (infos : List StreamPropertyInfo) (member : JsonValue × JsonValue) (entry : ℤ × Property)
    → read_member infos member ≡ some entry
    → StandsFor infos member entry
unfolding read_member
read-StandsFor infos (json_string name, value) (id, property) e =
    elim (Option-cases (find_property (until_nul name) infos)) [
      | inl unknown ↦ let k = read_unknown infos name value unknown in cc
      | inr (info, found) ↦ elim (Option-cases (property_of info.property_type value)) [
        | inl mistyped ↦ let k = read_mistyped infos name value info found mistyped in cc
        | inr (p, typed) ↦
            let same : (info.property_id, p) ≡ (id, property) =
              some_injective (sym (read_found infos name value info p found typed) ∙ e) in
            record {
              text = name;
              name = until_nul name;
              info = info;
              has_name = refl;
              cut = until_nul-IsCut name;
              first = found_first_lem (until_nul name) infos info found;
              key_is = ap (λ x. x.0) (sym same);
              typed =
                  property-typed info.property_type value property
                    (typed ∙ ap (λ x. some x.1) same);
            }
      ]
    ]
read-StandsFor infos (json_bool x, value) (id, property) e = cc
read-StandsFor infos (json_int x, value) (id, property) e = cc
read-StandsFor infos (json_other, value) (id, property) e = cc
