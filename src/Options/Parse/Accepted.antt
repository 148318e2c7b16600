-- ===== src/Options/Parse/Accepted.antt =====
-- The arguments that `Parse` accepts.
use czi_pyramidizer.Prelude.{
  ℕ, ◌<◌, ◌≡◌, ◌≢◌, refl, ◌⊎◌, inl, inr, arith, List, [], ◌∷◌, Option, some, true, false,
}
use czi_pyramidizer.Prelude.Int.{ℤ, pos}
use czi_pyramidizer.Prelude.Words.{u32_mod, to_u32}
use czi_pyramidizer.Prelude.Outcome.{ok}
use czi_pyramidizer.CheckForPyramid.{narrow_u32}
use czi_pyramidizer.Console.{Text}
use czi_pyramidizer.OutputTile.{CompressionMode}
use czi_pyramidizer.Main.{parsed, check_only, pyramidize}
use czi_pyramidizer.Strings.{utf8_to_wstring}
use czi_pyramidizer.Options.Color.{BackgroundColorOption}
use czi_pyramidizer.Options.Color.Accepted.{
  ColorWord, Names, chosen, try_parse_background_color_option_lem,
}
use czi_pyramidizer.Options.PropertyBag.{
  JsonValue, Property, PropertyBag, try_parse_input_stream_creation_property_bag,
}
use czi_pyramidizer.Options.PropertyBag.Members.{AllStandFor}
use czi_pyramidizer.Options.PropertyBag.Filled.{read_members_lem}
use czi_pyramidizer.Options.Help.{get_footer_text}
use czi_pyramidizer.Options.Parse.{
  Arguments, arguments, Options, Environment, throw_if_false, checked,
  try_parse_compression_options, read_property_bag, read_compression, read_background_color,
  store_arguments, choose_command, parse_arguments, after_cli, parse,
}
use czi_pyramidizer.Options.Parse.Errors.{is_empty-ne}
use czi_pyramidizer.Options.Parse.Results.{IsReady, parsed_arguments}

narrow_u32-small : (n : ℕ) → n < u32_mod → narrow_u32 (pos n) ≡ ok n
unfolding narrow_u32
narrow_u32-small n h = ground arith

module _ {Parameters : Type 0} (env : Environment Parameters) where
  open env use {iconv, iconv_opens, parse_compression_options, parse_json, property_infos}

  abbrev pub BagAccepted : Text → Type 0
  BagAccepted text =
      (text ≡ [])
      ⊎ ((members : List (JsonValue × JsonValue)) × (entries : List (ℤ × Property)) × (parse_json
              text
            ≡ some members)
          × AllStandFor property_infos members entries)

  abbrev pub CompressionAccepted : Text → Type 0
  CompressionAccepted text =
      (text ≡ [])
      ⊎ ((given : CompressionMode × Option Parameters) × (parse_compression_options text
            ≡ ok given))

  abbrev pub ColorAccepted : Text → Type 0
  ColorAccepted text = (text ≡ []) ⊎ ((v : ColorWord) × Names v text)

  abbrev pub Converts : Text → Type 0
  Converts text = (uri : List ℕ) × (utf8_to_wstring iconv iconv_opens text ≡ ok uri)

  -- There is a source, and a destination where a pyramid is to be made; each text that is given can
  -- be read, and the threshold is that of an unsigned number.
  pub record IsAccepted (a : Arguments) : Type 0 where
    pub no_version : a.version_flag ≡ false
    pub has_source : a.source_czi_uri ≢ []
    pub source : Converts a.source_czi_uri
    pub bag : BagAccepted a.source_stream_creation_propbag
    pub compression : CompressionAccepted a.compression_options
    pub color : ColorAccepted a.background_color
    pub threshold : (n : ℕ) × (a.threshold_for_pyramid ≡ pos n) × (n < u32_mod)
    pub command :
        (a.do_only_check_flag ≡ true)
        ⊎ ((a.do_only_check_flag ≡ false)
            × (a.destination_czi_uri ≢ [])
            × Converts a.destination_czi_uri)

  read_property_bag_returns :
      (text : Text) (before : PropertyBag)
      → BagAccepted text
      → (bag : PropertyBag) × (read_property_bag env text before ≡ ok bag)
  unfolding read_property_bag try_parse_input_stream_creation_property_bag checked throw_if_false
  read_property_bag_returns [] before h = (before, refl)
  read_property_bag_returns (c ∷ text) before (inl e) = absurd (cc)
  read_property_bag_returns (c ∷ text) before (inr (members, entries, e, stand)) =
      elim (read_members_lem property_infos members before) [
        | inl (found, filled, stands, returns, holds) ↦
            (filled, rw (read_property_bag, e, returns) refl)
        | inr (none_stands, refused) ↦ absurd (none_stands entries stand)
      ]

  read_compression_returns :
      (text : Text) (before : CompressionMode × Option Parameters)
      → CompressionAccepted text
      → (given : CompressionMode × Option Parameters) × (read_compression env text before
          ≡ ok given)
  unfolding read_compression try_parse_compression_options throw_if_false
  read_compression_returns [] before h = (before, refl)
  read_compression_returns (c ∷ text) before (inl e) = absurd (cc)
  read_compression_returns (c ∷ text) before (inr (given, e)) =
      (given, rw (read_compression, try_parse_compression_options, e) refl)

  read_background_color_returns :
      (text : Text) (before : BackgroundColorOption)
      → ColorAccepted text
      → (color : BackgroundColorOption) × (read_background_color env text before ≡ ok color)
  unfolding read_background_color checked throw_if_false
  read_background_color_returns [] before h = (before, refl)
  read_background_color_returns (c ∷ text) before (inl e) = absurd (cc)
  read_background_color_returns (c ∷ text) before (inr (v, names)) =
      elim (try_parse_background_color_option_lem (c ∷ text) (some env.uninitialized)) [
        | inl (w, named, e) ↦ (chosen w env.uninitialized, rw (read_background_color, e) refl)
        | inr (none_named, e) ↦ absurd (none_named v names)
      ]

  store_arguments_returns :
      (a : Arguments) (before : Options Parameters)
      → IsAccepted a
      → (stored : Options Parameters) × (store_arguments env a before ≡ ok stored)
  unfolding store_arguments
  store_arguments_returns a before accepted =
      let (uri, eu) = accepted.source in
      let (bag, eb) =
        read_property_bag_returns a.source_stream_creation_propbag
          before.property_bag_for_stream_class accepted.bag in
      let (given, eg) =
        read_compression_returns a.compression_options
          (before.compression_mode, before.compression_parameters) accepted.compression in
      let (color, ec) =
        read_background_color_returns a.background_color before.background_color_option
          accepted.color in
      let (n, en, small) = accepted.threshold in
      (
        record before {
          source_czi_uri = uri;
          source_czi_stream_class = a.source_stream_class;
          property_bag_for_stream_class = bag;
          compression_mode = given.0;
          compression_parameters = given.1;
          background_color_option = color;
          pyramid_tile_size = to_u32 a.tile_size;
          max_top_level_pyramid_size = to_u32 a.top_level_pyramid_size;
          log_verbosity_level = a.verbosity;
          overwrite_destination = a.overwrite_destination;
          threshold_when_pyramid_is_required = n;
          mode_of_operation = a.mode_of_operation;
        },
        rw (store_arguments, eu, eb, eg, ec, en, narrow_u32-small n small) refl,
      )

  choose_command_returns :
      (a : Arguments) (stored : Options Parameters)
      → IsAccepted a
      → (options : Options Parameters) × (choose_command env a stored ≡ ok ([], parsed, options))
  unfolding choose_command
  choose_command_returns a stored accepted = elim accepted.command [
    | inl check ↦ (record stored { command = check_only }, rw (choose_command, check) refl)
    | inr (make, has_destination, (uri, e)) ↦ (
      record stored { destination_czi_uri = uri; command = pyramidize },
      rw (choose_command, make, is_empty-ne a.destination_czi_uri has_destination, e) refl,
    )
  ]

  -- Where the command line is read as arguments that are accepted, Parse returns OK and writes
  -- nothing, and the options hold what the arguments give.
  pub parse-IsReady :
      (footer : Text) (a : Arguments) (before : Options Parameters)
      → get_footer_text env.lib_czi_info ≡ ok footer
      → env.cli_parse footer ≡ arguments a
      → IsAccepted a
      → (options : Options Parameters) × (parse env before ≡ ok ([], parsed, options))
        × IsReady env a before options
  unfolding parse after_cli parse_arguments
  parse-IsReady footer a before has_footer given accepted =
      let (stored, es) = store_arguments_returns a before accepted in
      let (options, ec) = choose_command_returns a stored accepted in
      let returns : parse_arguments env a before ≡ ok ([], parsed, options) =
        rw
          (
            parse_arguments,
            accepted.no_version,
            is_empty-ne a.source_czi_uri accepted.has_source,
            es,
          )
          ec in
      (
        options,
        rw (parse, has_footer, given) returns,
        (parsed_arguments env a before options [] returns).1,
      )
