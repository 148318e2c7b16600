-- ===== src/Background.antt =====
-- libpyramidizer/src/pyramidizer_operation.cpp: whether the background is white, from the
-- metadata. The counters are exact.
pub mod Light
pub mod White
use czi_pyramidizer.Prelude.{
  ℕ, zero, suc, ◌+◌, ◌%◌, List, [], ◌∷◌, ◌++◌, map, Option, none, some, Bool, true, false, not,
  ◌&&◌, ◌||◌, ◌==◌, ltb, length, if◌then◌else◌,
}
use czi_pyramidizer.Prelude.Int.{ℤ, pos, eqb_ℤ}
use czi_pyramidizer.Prelude.Words.{u32_mod}
use czi_pyramidizer.Prelude.Outcome.{Outcome, ok, err, invalid_argument, ◌>>=◌}
use czi_pyramidizer.Console.{Text, codes}
use czi_pyramidizer.SubBlocks.{narrow_size}
use czi_pyramidizer.OutputTile.{CompressionMode}

-- A child of the node `DisplaySetting/Channels`: its name, and the value of its node
-- `IlluminationType`, if there is one.
pub record XmlNode : Type 0 where
  pub name : Text
  pub illumination_type : Option (Option Text)

unfoldable pub same_text : Text → Text → Bool
same_text [] [] = true
same_text [] (d ∷ t) = false
same_text (c ∷ s) [] = false
same_text (c ∷ s) (d ∷ t) = (c == d) && same_text s t

-- libCZI's `DimensionChannelIlluminationType`, as far as the source tells it apart.
pub data IlluminationType : Type 0 where
  transmitted oblique other : IlluminationType

unfoldable pub is_white_node : XmlNode → Bool
is_white_node node = elim node.illumination_type [
  | none ↦ false
  | some none ↦ false
  | some (some value) ↦ same_text value (codes "Transmitted") || same_text value (codes "Reflected")
]

-- The two counts over the channel nodes: of all, and of those with a white background.
unfoldable pub count_channel_nodes : List XmlNode → ℕ × ℕ
count_channel_nodes [] = (0, 0)
count_channel_nodes (node ∷ nodes) =
    let rest = count_channel_nodes nodes in
    if same_text node.name (codes "Channel")
    then (suc rest.0, (if is_white_node node then suc rest.1 else rest.1))
    else rest

unfoldable pub is_white_channel : Option (Option IlluminationType) → Bool
is_white_channel (some (some transmitted)) = true
is_white_channel (some (some oblique)) = true
is_white_channel (some (some other)) = false
is_white_channel (some none) = false
is_white_channel none = false

-- The count over the channels of the document info.
unfoldable pub count_white_channels : List (Option (Option IlluminationType)) → ℕ
count_white_channels [] = 0
count_white_channels (channel ∷ channels) =
    let rest = count_white_channels channels in if is_white_channel channel then suc rest else rest

-- What is read of the metadata: the children of the display settings' node, and the channels of the
-- document info. A null pointer is `none`.
pub record Metadata : Type 0 where
  pub display_settings_channels : Option (List XmlNode)
  pub dimension_channels : Option (List (Option (Option IlluminationType)))

unfoldable pub display_settings_white : Option (List XmlNode) → Bool
display_settings_white none = false
display_settings_white (some nodes) =
    let counts = count_channel_nodes nodes in ltb 0 counts.0 && (counts.0 == counts.1)

unfoldable pub dimension_channels_white : Option (List (Option (Option IlluminationType))) → Bool
dimension_channels_white none = false
dimension_channels_white (some channels) = count_white_channels channels == length channels

-- The metadata is missing where there is no segment, or it cannot be read.
unfoldable pub determine_whether_background_should_be_white : Option Metadata → Bool
determine_whether_background_should_be_white none = false
determine_whether_background_should_be_white (some metadata) =
    if display_settings_white metadata.display_settings_channels
    then true
    else if dimension_channels_white metadata.dimension_channels
    then true
    else false
