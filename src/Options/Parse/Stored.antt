-- ===== src/Options/Parse/Stored.antt =====
-- What `Parse` stores of the arguments.
use czi_pyramidizer.Prelude.{
  ℕ, ◌≡◌, ◌≢◌, refl, ap, subst, ◌∙◌, sym, ◌⊎◌, inl, inr, arith, List, [], ◌∷◌, Option, none, some,
  Bool, true, false, Bool-cases,
}
use czi_pyramidizer.Prelude.Int.{ℤ, pos}
use czi_pyramidizer.Prelude.Words.{to_u32}
use czi_pyramidizer.Prelude.Outcome.{
  ok, err, bind_inversion, ok-injective, Outcome-cases, runtime_error,
}
use czi_pyramidizer.CheckForPyramid.{find, narrow_u32}
use czi_pyramidizer.Console.{Text}
use czi_pyramidizer.OutputTile.{CompressionMode}
use czi_pyramidizer.Main.{Command, is_exception}
use czi_pyramidizer.Strings.{utf8_to_wstring}
use czi_pyramidizer.Options.Color.{BackgroundColorOption}
use czi_pyramidizer.Options.Color.Accepted.{
  ColorWord, Names, chosen, try_parse_background_color_option_lem,
}
use czi_pyramidizer.Options.PropertyBag.{
  JsonValue, Property, PropertyBag, try_parse_input_stream_creation_property_bag,
}
use czi_pyramidizer.Options.PropertyBag.Members.{AllStandFor}
use czi_pyramidizer.Options.PropertyBag.Filled.{first_of, read_members_lem}
use czi_pyramidizer.Options.Parse.{
  Arguments, Options, Environment, throw_if_false, checked, try_parse_compression_options,
  read_property_bag, read_compression, read_background_color, store_arguments,
}

module _ {Parameters : Type 0} (env : Environment Parameters) where
  open env use {
    iconv, iconv_opens, parse_compression_options, parse_json, property_infos, uninitialized,
  }

  -- The bag is the one before, or holds the members of the JSON object.
  abbrev pub BagRead : Text → PropertyBag → PropertyBag → Type 0
  BagRead text before bag =
      ((text ≡ []) × (bag ≡ before))
      ⊎ ((text ≢ [])
          × ((members : List (JsonValue × JsonValue)) × (entries : List (ℤ × Property))
              × (parse_json text ≡ some members)
              × AllStandFor property_infos members entries
              × ((id : ℤ) → find id bag ≡ first_of (find id before) (find id entries))))

  abbrev pub CompressionRead :
      Text → CompressionMode × Option Parameters → CompressionMode × Option Parameters → Type 0
  CompressionRead text before given =
      ((text ≡ []) × (given ≡ before)) ⊎ ((text ≢ []) × (parse_compression_options text ≡ ok given))

  abbrev pub ColorRead : Text → BackgroundColorOption → BackgroundColorOption → Type 0
  ColorRead text before color =
      ((text ≡ []) × (color ≡ before))
      ⊎ ((text ≢ []) × ((v : ColorWord) × Names v text × (color ≡ chosen v uninitialized)))

  -- The options hold the arguments.
  pub record IsStored (a : Arguments) (before options : Options Parameters) : Type 0 where
    pub source : utf8_to_wstring iconv iconv_opens a.source_czi_uri ≡ ok options.source_czi_uri
    pub stream_class : options.source_czi_stream_class ≡ a.source_stream_class
    pub bag :
        BagRead a.source_stream_creation_propbag before.property_bag_for_stream_class
          options.property_bag_for_stream_class
    pub compression :
        CompressionRead a.compression_options
          (before.compression_mode, before.compression_parameters)
          (options.compression_mode, options.compression_parameters)
    pub color :
        ColorRead a.background_color before.background_color_option options.background_color_option
    pub threshold : a.threshold_for_pyramid ≡ pos options.threshold_when_pyramid_is_required
    pub tile_size : options.pyramid_tile_size ≡ to_u32 a.tile_size
    pub top_level_size : options.max_top_level_pyramid_size ≡ to_u32 a.top_level_pyramid_size
    pub verbosity : options.log_verbosity_level ≡ a.verbosity
    pub overwrites : options.overwrite_destination ≡ a.overwrite_destination
    pub mode : options.mode_of_operation ≡ a.mode_of_operation

  throw_if_false-ok :
      {A : Type 0} (b : Bool) (x y : A) → throw_if_false b x ≡ ok y → (b ≡ true) × (x ≡ y)
  unfolding throw_if_false
  throw_if_false-ok true x y h = (refl, ok-injective h)
  throw_if_false-ok false x y h = cc

  checked-ok :
      {A : Type 0} (answer : Bool × Option A) (before stored result : A)
      → answer.1 ≡ some stored
      → checked answer before ≡ ok result
      → result ≡ stored
  unfolding checked throw_if_false
  checked-ok (true, some x) before stored result e h = cc
  checked-ok (true, none) before stored result e h = cc
  checked-ok (false, some x) before stored result e h = cc
  checked-ok (false, none) before stored result e h = cc

  checked-true :
      {A : Type 0} (answer : Bool × Option A) (before result : A)
      → checked answer before ≡ ok result
      → answer.0 ≡ true
  unfolding checked throw_if_false
  checked-true (true, x) before result h = refl
  checked-true (false, some x) before result h = cc
  checked-true (false, none) before result h = cc

  bag_members :
      (text : Text) (before bag : PropertyBag) (json : Option (List (JsonValue × JsonValue)))
      → parse_json text ≡ json
      → checked
          (try_parse_input_stream_creation_property_bag property_infos json (some before))
          before
        ≡ ok bag
      → (members : List (JsonValue × JsonValue)) × (entries : List (ℤ × Property)) × (parse_json
            text
          ≡ some members)
        × AllStandFor property_infos members entries
        × ((id : ℤ) → find id bag ≡ first_of (find id before) (find id entries))
  unfolding try_parse_input_stream_creation_property_bag
  bag_members text before bag none e h = absurd (let k = checked-true _ before bag h in cc)
  bag_members text before bag (some members) e h =
      elim (read_members_lem property_infos members before) [
        | inl (entries, filled, stand, returns, holds) ↦
            let same : bag ≡ filled = checked-ok _ before filled bag (ap (λ x. x.1) returns) h in
            (members, entries, e, stand, λ id. rw same (holds id))
        | inr (none_stands, refused) ↦ let k = checked-true _ before bag h in absurd (cc)
      ]

  read_bag :
      (text : Text) (before bag : PropertyBag)
      → read_property_bag env text before ≡ ok bag
      → BagRead text before bag
  unfolding read_property_bag
  read_bag [] before bag h = inl (refl, sym (ok-injective h))
  read_bag (c ∷ text) before bag h =
      inr (λ e. cc, bag_members (c ∷ text) before bag (parse_json (c ∷ text)) refl h)

  compression_read :
      (text : Text) (before given : CompressionMode × Option Parameters)
      → read_compression env text before ≡ ok given
      → CompressionRead text before given
  unfolding read_compression try_parse_compression_options throw_if_false
  compression_read [] before given h = inl (refl, sym (ok-injective h))
  compression_read (c ∷ text) before given h = inr (
    λ e. cc,
    elim (Outcome-cases (parse_compression_options (c ∷ text))) [
      | inl (option, e) ↦
          let k : ok option ≡ ok given =
            rw (read_compression, try_parse_compression_options, e) at h in
          e ∙ k
      | inr (error, e) ↦ elim (Bool-cases (is_exception error)) [
        | inl caught ↦ absurd (
            let k : err runtime_error ≡ ok given =
              rw (read_compression, try_parse_compression_options, e, caught) at h in
            cc)
        | inr through ↦ absurd (
            let k : err error ≡ ok given =
              rw (read_compression, try_parse_compression_options, e, through) at h in
            cc)
      ]
    ],
  )

  color_read :
      (text : Text) (before color : BackgroundColorOption)
      → read_background_color env text before ≡ ok color
      → ColorRead text before color
  unfolding read_background_color throw_if_false
  color_read [] before color h = inl (refl, sym (ok-injective h))
  color_read (c ∷ text) before color h = inr (
    λ e. cc,
    elim (try_parse_background_color_option_lem (c ∷ text) (some uninitialized)) [
      | inl (v, names, e) ↦ (
        v,
        names,
        checked-ok (true, some (chosen v uninitialized)) before _ color refl (rw e at h),
      )
      | inr (none_named, e) ↦
          absurd (let k = checked-true (false, some uninitialized) before color (rw e at h) in cc)
    ],
  )

  narrow_u32-ok : (z : ℤ) (n : ℕ) → narrow_u32 z ≡ ok n → z ≡ pos n
  unfolding narrow_u32
  narrow_u32-ok z n h = ground arith

  pub store_arguments-IsStored :
      (a : Arguments) (before options : Options Parameters)
      → store_arguments env a before ≡ ok options
      → IsStored a before options
  unfolding store_arguments
  store_arguments-IsStored a before options h =
      let (src, es, h1) = bind_inversion (utf8_to_wstring iconv iconv_opens a.source_czi_uri) _ h in
      let (bag, eb, h2) =
        bind_inversion
          (read_property_bag env a.source_stream_creation_propbag
            before.property_bag_for_stream_class)
          _ h1 in
      let (compression, ec, h3) =
        bind_inversion
          (read_compression env a.compression_options
            (before.compression_mode, before.compression_parameters))
          _ h2 in
      let (color, ek, h4) =
        bind_inversion (read_background_color env a.background_color before.background_color_option)
          _ h3 in
      let (threshold, et, h5) = bind_inversion (narrow_u32 a.threshold_for_pyramid) _ h4 in
      subst (λ o. IsStored a before o) (ok-injective h5)
        (record {
          source = es;
          stream_class = refl;
          bag =
              read_bag a.source_stream_creation_propbag before.property_bag_for_stream_class bag eb;
          compression =
              compression_read a.compression_options
                (before.compression_mode, before.compression_parameters) compression ec;
          color = color_read a.background_color before.background_color_option color ek;
          threshold = narrow_u32-ok a.threshold_for_pyramid threshold et;
          tile_size = refl;
          top_level_size = refl;
          verbosity = refl;
          overwrites = refl;
          mode = refl;
        })

  -- The command and the destination are no arguments that are stored before.
  pub keep-IsStored :
      (a : Arguments) (before options : Options Parameters) (destination : List ℕ)
      (command : Command)
      → IsStored a before options
      → IsStored a before (record options { destination_czi_uri = destination; command = command })
  keep-IsStored a before options destination command s = record {
    source = s.source;
    stream_class = s.stream_class;
    bag = s.bag;
    compression = s.compression;
    color = s.color;
    threshold = s.threshold;
    tile_size = s.tile_size;
    top_level_size = s.top_level_size;
    verbosity = s.verbosity;
    overwrites = s.overwrites;
    mode = s.mode;
  }
