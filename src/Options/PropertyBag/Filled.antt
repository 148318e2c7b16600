-- ===== src/Options/PropertyBag/Filled.antt =====
-- What the property bag holds after parsing.
use czi_pyramidizer.Prelude.{
  ◌≡◌, refl, ap, ◌∙◌, sym, ◌⊎◌, inl, inr, arith, List, [], ◌∷◌, ◌++◌, Option, none, some, true,
  false, Bool-cases, Option-cases,
}
use czi_pyramidizer.Prelude.Int.{ℤ, eqb_ℤ, eq_of_parts}
use czi_pyramidizer.CheckForPyramid.{find}
use czi_pyramidizer.Options.PropertyBag.{
  JsonValue, Property, StreamPropertyInfo, PropertyBag, insert_new, read_member, read_members,
}
use czi_pyramidizer.Options.PropertyBag.Members.{AllStandFor, StandsFor-read, read-StandsFor}

-- The value of a key that is there is kept, else the new one is found.
abbrev pub first_of : Option Property → Option Property → Option Property
first_of none later = later
first_of (some property) later = some property

first_of-none : (a : Option Property) → first_of a none ≡ a
first_of-none none = refl
first_of-none (some p) = refl

first_of_assoc : (a b c : Option Property) → first_of (first_of a b) c ≡ first_of a (first_of b c)
first_of_assoc none b c = refl
first_of_assoc (some p) b c = refl

find-cons :
    (id : ℤ) (entry : ℤ × Property) (bag : PropertyBag)
    → find id (entry ∷ bag) ≡ first_of (find id (entry ∷ [])) (find id bag)
unfolding find
find-cons id (key, property) bag = ground arith

find-append :
    (id : ℤ) (bag later : PropertyBag)
    → find id (bag ++ later) ≡ first_of (find id bag) (find id later)
unfolding find
find-append id [] later = refl
find-append id ((key, property) ∷ bag) later = ground (arith, find-append id bag later)

find-single :
    (id key : ℤ) (property : Property) → (id ≡ key) ⊎ (find id ((key, property) ∷ []) ≡ none)
unfolding find
find-single id key property = elim (Bool-cases (eqb_ℤ key id)) [
  | inl h ↦ inl (eq_of_parts id key (ground arith))
  | inr h ↦ inr (ground arith)
]

find-insert_new :
    (id key : ℤ) (property : Property) (bag : PropertyBag)
    → find id (insert_new key property bag)
      ≡ first_of (find id bag) (find id ((key, property) ∷ []))
unfolding insert_new
find-insert_new id key property bag = elim (Option-cases (find key bag)) [
  | inl missing ↦ rw (insert_new, missing) (find-append id bag ((key, property) ∷ []))
  | inr (old, there) ↦ elim (find-single id key property) [
    | inl same ↦ rw (same, insert_new, there, there)
    | inr other ↦ rw (insert_new, there, other) (sym (first_of-none (find id bag)))
  ]
]

-- The loop over the members, with any bag to begin with.
read_none :
    (infos : List StreamPropertyInfo) (member : JsonValue × JsonValue)
    (members : List (JsonValue × JsonValue)) (bag : PropertyBag)
    → read_member infos member ≡ none
    → ((entries : List (ℤ × Property)) → ¬ AllStandFor infos (member ∷ members) entries)
      × ((read_members infos (member ∷ members) (some bag)).0 ≡ false)
unfolding read_members
read_none infos member members bag e = (none_stands, rw (read_members, e))
  where
    none_stands : (entries : List (ℤ × Property)) → ¬ AllStandFor infos (member ∷ members) entries
    none_stands [] h = elim h [ ]
    none_stands (entry ∷ entries) (h, hs) = let k = StandsFor-read infos member entry h in cc

read_some :
    (infos : List StreamPropertyInfo) (member : JsonValue × JsonValue)
    (members : List (JsonValue × JsonValue)) (bag : PropertyBag) (entry : ℤ × Property)
    → read_member infos member ≡ some entry
    → read_members infos (member ∷ members) (some bag)
      ≡ read_members infos members (some (insert_new entry.0 entry.1 bag))
unfolding read_members
read_some infos member members bag entry e = rw (read_members, e)

-- The tail of entries that stand for a member and more.
tail_stands :
    (infos : List StreamPropertyInfo) (member : JsonValue × JsonValue)
    (members : List (JsonValue × JsonValue))
    → ((entries : List (ℤ × Property)) → ¬ AllStandFor infos members entries)
    → (entries : List (ℤ × Property)) → ¬ AllStandFor infos (member ∷ members) entries
tail_stands infos member members none_stands [] h = elim h [ ]
tail_stands infos member members none_stands (entry ∷ entries) (h, hs) = none_stands entries hs

regrouped :
    (id : ℤ) (entry : ℤ × Property) (bag entries : PropertyBag)
    → first_of (find id (insert_new entry.0 entry.1 bag)) (find id entries)
      ≡ first_of (find id bag) (find id (entry ∷ entries))
regrouped id (key, property) bag entries =
    ap (λ x. first_of x (find id entries)) (find-insert_new id key property bag)
    ∙ first_of_assoc (find id bag) (find id ((key, property) ∷ [])) (find id entries)
    ∙ ap (λ x. first_of (find id bag) x) (sym (find-cons id (key, property) entries))

-- If each member has a name of the table, and a value of the type of the first entry with that
-- name, the parsing answers true, and of a key the bag has the value that it had, else that of the
-- first member for the key, and no other keys. Otherwise the answer is false.
-- Names and texts are taken up to their first NUL characters.
pub read_members_lem :
    (infos : List StreamPropertyInfo) (members : List (JsonValue × JsonValue)) (bag : PropertyBag)
    → ((entries : List (ℤ × Property)) × (filled : PropertyBag) × AllStandFor infos members entries
        × (read_members infos members (some bag) ≡ (true, some filled))
        × ((id : ℤ) → find id filled ≡ first_of (find id bag) (find id entries)))
      ⊎ (((entries : List (ℤ × Property)) → ¬ AllStandFor infos members entries)
          × ((read_members infos members (some bag)).0 ≡ false))
read_members_lem infos [] bag = inl (
  [],
  bag,
  tt,
  unfold read_members in refl,
  λ id. unfold find in sym (first_of-none (find id bag)),
)
read_members_lem infos (member ∷ members) bag = elim (Option-cases (read_member infos member)) [
  | inl e ↦ inr (read_none infos member members bag e)
  | inr (entry, e) ↦
      let step = read_some infos member members bag entry e in
      elim (read_members_lem infos members (insert_new entry.0 entry.1 bag)) [
        | inl (entries, filled, stand, returns, holds) ↦ inl (
          entry ∷ entries,
          filled,
          (read-StandsFor infos member entry e, stand),
          step ∙ returns,
          λ id. holds id ∙ regrouped id entry bag entries,
        )
        | inr (none_stands, refused) ↦
            inr (tail_stands infos member members none_stands, ap (λ x. x.0) step ∙ refused)
      ]
]
