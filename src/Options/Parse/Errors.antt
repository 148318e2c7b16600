-- ===== src/Options/Parse/Errors.antt =====
-- The errors by which `Parse` ends.
use czi_pyramidizer.Prelude.{
  ◌≡◌, ◌≢◌, refl, inl, inr, List, [], ◌∷◌, Option, none, some, Bool, true, false, ℕ,
}
use czi_pyramidizer.Prelude.Int.{ℤ}
use czi_pyramidizer.Prelude.Outcome.{ok, err, runtime_error, null_pointer}
use czi_pyramidizer.Console.{Text}
use czi_pyramidizer.Strings.{utf8_to_wstring}
use czi_pyramidizer.Options.Help.{get_footer_text}
use czi_pyramidizer.Options.PropertyBag.{
  JsonValue, Property, PropertyBag, try_parse_input_stream_creation_property_bag,
}
use czi_pyramidizer.Options.PropertyBag.Members.{AllStandFor}
use czi_pyramidizer.Options.PropertyBag.Filled.{read_members_lem}
use czi_pyramidizer.Options.Parse.{
  Options, Environment, Arguments, arguments, parse, after_cli, parse_arguments, store_arguments,
  read_property_bag, checked, throw_if_false, report_missing, call_console, is_empty,
}

checked_err :
    {A : Type 0} (answer : Bool × Option A) (before : A)
    → answer.0 ≡ false
    → checked answer before ≡ err runtime_error
unfolding checked throw_if_false
checked_err (true, x) before h = cc
checked_err (false, none) before h = refl
checked_err (false, some x) before h = refl

pub is_empty-ne : (s : Text) → s ≢ [] → is_empty s ≡ false
is_empty-ne [] h = absurd (h refl)
is_empty-ne (c ∷ s) h = refl

module _ {Parameters : Type 0} (env : Environment Parameters) where
  -- No JSON object whose members the table of properties allows.
  abbrev pub IsNoBag : Text → Type 0
  IsNoBag text =
      (members : List (JsonValue × JsonValue)) (entries : List (ℤ × Property))
      → env.parse_json text ≡ some members
      → ¬ AllStandFor env.property_infos members entries

  bag_err :
      (json : Option (List (JsonValue × JsonValue))) (bag : PropertyBag)
      → ((members : List (JsonValue × JsonValue)) (entries : List (ℤ × Property))
          → json ≡ some members
          → ¬ AllStandFor env.property_infos members entries)
      → checked
          (try_parse_input_stream_creation_property_bag env.property_infos json (some bag))
          bag
        ≡ err runtime_error
  unfolding try_parse_input_stream_creation_property_bag
  bag_err none bag h = checked_err (false, some bag) bag refl
  bag_err (some members) bag h = elim (read_members_lem env.property_infos members bag) [
    | inl (entries, filled, stand, e, holds) ↦ absurd (h members entries refl stand)
    | inr (none_stands, refused) ↦ checked_err _ bag refused
  ]

  read_property_bag_err :
      (text : Text) (bag : PropertyBag)
      → text ≢ []
      → IsNoBag text
      → read_property_bag env text bag ≡ err runtime_error
  unfolding read_property_bag
  read_property_bag_err [] bag h k = absurd (h refl)
  read_property_bag_err (c ∷ text) bag h k = bag_err (env.parse_json (c ∷ text)) bag k

  module _ (a : Arguments) (footer : Text)
      (has_footer : get_footer_text env.lib_czi_info ≡ ok footer)
      (given : env.cli_parse footer ≡ arguments a) (no_version : a.version_flag ≡ false) where
    pub parse-runtime_error :
        (options : Options Parameters) (uri : List ℕ)
        → a.source_czi_uri ≢ []
        → utf8_to_wstring env.iconv env.iconv_opens a.source_czi_uri ≡ ok uri
        → a.source_stream_creation_propbag ≢ []
        → IsNoBag a.source_stream_creation_propbag
        → parse env options ≡ err runtime_error
    unfolding parse after_cli parse_arguments store_arguments
    parse-runtime_error options uri has_source converts has_bag bad = rw (
      parse,
      has_footer,
      given,
      no_version,
      is_empty-ne a.source_czi_uri has_source,
      store_arguments,
      converts,
      read_property_bag_err a.source_stream_creation_propbag _ has_bag bad,
    )

    pub parse-null_pointer :
        (options : Options Parameters)
        → a.source_czi_uri ≡ []
        → env.has_console ≡ false
        → parse env options ≡ err null_pointer
    unfolding parse after_cli parse_arguments report_missing call_console
    parse-null_pointer options no_source no_console =
        rw (
          parse, has_footer, given, no_version, no_source, report_missing, call_console, no_console,
        )
