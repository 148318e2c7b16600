-- ===== src/Background/White.antt =====
-- When the background is white.
use czi_pyramidizer.Prelude.{
  ℕ, suc, ◌≤◌, ◌<◌, ◌≡◌, refl, ap, ◌↔◌, ◌⊎◌, inl, inr, List, [], ◌∷◌, Option, none, some, Bool,
  true, false, ◌&&◌, ◌==◌, All, ==_iff, ltb, length, arith, Bool-cases,
}
use czi_pyramidizer.Background.Light.{
  IsChannel, IsWhiteNode, IsWhiteChannel, is_channel, is_channel_iff, is_white_node_iff,
  is_white_channel_iff,
}
use czi_pyramidizer.Background.{
  XmlNode, IlluminationType, Metadata, is_white_node, count_channel_nodes, is_white_channel,
  count_white_channels, display_settings_white, dimension_channels_white,
  determine_whether_background_should_be_white,
}

-- Some node is a channel's, and all of these have a white background.
abbrev pub SomeChannel : List XmlNode → Type 0
SomeChannel [] = ⊥
SomeChannel (node ∷ nodes) = IsChannel node ⊎ SomeChannel nodes

abbrev pub AllWhite : List XmlNode → Type 0
AllWhite [] = Unit
AllWhite (node ∷ nodes) = (IsChannel node → IsWhiteNode node) × AllWhite nodes

abbrev pub AllWhiteChannels : List (Option (Option IlluminationType)) → Type 0
AllWhiteChannels channels = All IsWhiteChannel channels

count_white :
    (node : XmlNode) (nodes : List XmlNode)
    → is_channel node ≡ true
    → is_white_node node ≡ true
    → count_channel_nodes (node ∷ nodes)
      ≡ (suc (count_channel_nodes nodes).0, suc (count_channel_nodes nodes).1)
unfolding count_channel_nodes
count_white node nodes c w = rw (c, w) refl

count_dark :
    (node : XmlNode) (nodes : List XmlNode)
    → is_channel node ≡ true
    → is_white_node node ≡ false
    → count_channel_nodes (node ∷ nodes)
      ≡ (suc (count_channel_nodes nodes).0, (count_channel_nodes nodes).1)
unfolding count_channel_nodes
count_dark node nodes c w = rw (c, w) refl

count_other :
    (node : XmlNode) (nodes : List XmlNode)
    → is_channel node ≡ false
    → count_channel_nodes (node ∷ nodes) ≡ count_channel_nodes nodes
unfolding count_channel_nodes
count_other node nodes c = rw c refl

-- The two counts: no more channels are white than there are, and as many only if all are.
pub record Counts (nodes : List XmlNode) (counts : ℕ × ℕ) : Type 0 where
  pub fewer : counts.1 ≤ counts.0
  pub positive : 0 < counts.0 → SomeChannel nodes
  pub some_counted : SomeChannel nodes → 0 < counts.0
  pub equal : counts.0 ≡ counts.1 → AllWhite nodes
  pub all_counted : AllWhite nodes → counts.0 ≡ counts.1

count_channel_nodes-Counts : (nodes : List XmlNode) → Counts nodes (count_channel_nodes nodes)
unfolding count_channel_nodes
count_channel_nodes-Counts [] = record {
  fewer = omega arith;
  positive = λ h. absurd (omega arith);
  some_counted = λ h. absurd h;
  equal = λ e. tt;
  all_counted = λ a. refl;
}
count_channel_nodes-Counts (node ∷ nodes) =
    let c = count_channel_nodes-Counts nodes in
    elim (Bool-cases (is_channel node)) [
      | inr foreign ↦ rw (count_other node nodes foreign) (record {
        fewer = c.fewer;
        positive = λ h. inr (c.positive h);
        some_counted = λ h. elim h [
          | inl e ↦ absurd (cc ((is_channel_iff node).1 e, foreign))
          | inr s ↦ c.some_counted s
        ];
        equal = λ e. (λ is. absurd (cc ((is_channel_iff node).1 is, foreign)), c.equal e);
        all_counted = λ a. c.all_counted a.1;
      })
      | inl is ↦ elim (Bool-cases (is_white_node node)) [
        | inl white ↦ rw (count_white node nodes is white) (record {
          fewer = omega (arith, c.fewer);
          positive = λ h. inl ((is_channel_iff node).0 is);
          some_counted = λ h. omega arith;
          equal = λ e. (λ h. (is_white_node_iff node).0 white, c.equal (omega arith));
          all_counted = λ a. ap suc (c.all_counted a.1);
        })
        | inr dark ↦ rw (count_dark node nodes is dark) (record {
          fewer = omega (arith, c.fewer);
          positive = λ h. inl ((is_channel_iff node).0 is);
          some_counted = λ h. omega arith;
          equal = λ e. absurd (omega (arith, c.fewer));
          all_counted = λ a.
              absurd (cc ((is_white_node_iff node).1 (a.0 ((is_channel_iff node).0 is)), dark));
        })
      ]
    ]

never : (b : Bool) → b ≡ false → b ≡ true → ⊥
never b f t = cc (f, t)

and_true : (a b : Bool) → (a && b) ≡ true → (a ≡ true) × (b ≡ true)
and_true true b h = (refl, h)
and_true false b h = absurd (cc h)

positive-ltb : (n : ℕ) → 0 < n → ltb 0 n ≡ true
positive-ltb n h = ground arith

ltb-positive : (n : ℕ) → ltb 0 n ≡ true → 0 < n
ltb-positive n h = ground arith

display_iff :
    (nodes : List XmlNode)
    → (display_settings_white (some nodes) ≡ true) ↔ (SomeChannel nodes × AllWhite nodes)
unfolding display_settings_white
display_iff nodes =
    let c = count_channel_nodes-Counts nodes in
    let counts = count_channel_nodes nodes in
    (
      λ h.
          let (a, b) = and_true (ltb 0 counts.0) (counts.0 == counts.1) h in
          (c.positive (ltb-positive counts.0 a), c.equal ((==_iff counts.0 counts.1).0 b)),
      λ h.
          rw
            (
              positive-ltb counts.0 (c.some_counted h.0),
              (==_iff counts.0 counts.1).1 (c.all_counted h.1),
            )
            refl,
    )

white_count :
    (channel : Option (Option IlluminationType))
    (channels : List (Option (Option IlluminationType)))
    → is_white_channel channel ≡ true
    → count_white_channels (channel ∷ channels) ≡ suc (count_white_channels channels)
unfolding count_white_channels
white_count channel channels h = rw h refl

dark_count :
    (channel : Option (Option IlluminationType))
    (channels : List (Option (Option IlluminationType)))
    → is_white_channel channel ≡ false
    → count_white_channels (channel ∷ channels) ≡ count_white_channels channels
unfolding count_white_channels
dark_count channel channels h = rw h refl

white_channels :
    (channels : List (Option (Option IlluminationType)))
    → (count_white_channels channels ≤ length channels)
      × (count_white_channels channels ≡ length channels → AllWhiteChannels channels)
      × (AllWhiteChannels channels → count_white_channels channels ≡ length channels)
unfolding count_white_channels
white_channels [] = (omega arith, λ e. tt, λ a. refl)
white_channels (channel ∷ channels) =
    let (fewer, equal, all) = white_channels channels in
    elim (Bool-cases (is_white_channel channel)) [
      | inl white ↦ rw (white_count channel channels white) (
        omega arith,
        λ e. ((is_white_channel_iff channel).0 white, equal (omega arith)),
        λ a. ap suc (all a.1),
      )
      | inr dark ↦ rw (dark_count channel channels dark) (
        omega arith,
        λ e. absurd (omega arith),
        λ a. absurd (cc ((is_white_channel_iff channel).1 a.0, dark)),
      )
    ]

dimension_iff :
    (channels : List (Option (Option IlluminationType)))
    → (dimension_channels_white (some channels) ≡ true) ↔ AllWhiteChannels channels
unfolding dimension_channels_white
dimension_iff channels =
    let (fewer, equal, all) = white_channels channels in
    (
      λ h. equal ((==_iff (count_white_channels channels) (length channels)).0 h),
      λ a. (==_iff (count_white_channels channels) (length channels)).1 (all a),
    )

-- The display settings say so of all of at least one channel, or the document info of all channels.
abbrev pub DisplayIsWhite : Option (List XmlNode) → Type 0
DisplayIsWhite none = ⊥
DisplayIsWhite (some nodes) = SomeChannel nodes × AllWhite nodes

abbrev pub InfoIsWhite : Option (List (Option (Option IlluminationType))) → Type 0
InfoIsWhite none = ⊥
InfoIsWhite (some channels) = AllWhiteChannels channels

display_white_iff :
    (o : Option (List XmlNode)) → (display_settings_white o ≡ true) ↔ DisplayIsWhite o
unfolding display_settings_white
display_white_iff none = (λ h. cc h, λ a. absurd a)
display_white_iff (some nodes) = display_iff nodes

info_white_iff :
    (o : Option (List (Option (Option IlluminationType))))
    → (dimension_channels_white o ≡ true) ↔ InfoIsWhite o
unfolding dimension_channels_white
info_white_iff none = (λ h. cc h, λ a. absurd a)
info_white_iff (some channels) = dimension_iff channels

-- With metadata, the background is white just when the display settings or else the document info
-- say so. A document info without channels says so too.
pub determine_whether_background_should_be_white_iff :
    (metadata : Metadata)
    → (determine_whether_background_should_be_white (some metadata) ≡ true) ↔ (
        DisplayIsWhite metadata.display_settings_channels ⊎ InfoIsWhite metadata.dimension_channels)
unfolding determine_whether_background_should_be_white
determine_whether_background_should_be_white_iff metadata =
    let d = metadata.display_settings_channels in
    let c = metadata.dimension_channels in
    elim (Bool-cases (display_settings_white d)) [
      | inl white ↦ (λ h. inl ((display_white_iff d).0 white), λ h. rw white refl)
      | inr dark ↦ elim (Bool-cases (dimension_channels_white c)) [
        | inl white ↦ (λ h. inr ((info_white_iff c).0 white), λ h. rw (dark, white) refl)
        | inr black ↦ (
          λ h. absurd (
              never (determine_whether_background_should_be_white (some metadata))
                (rw (dark, black) refl) h),
          λ h. elim h [
            | inl a ↦ absurd (cc ((display_white_iff d).1 a, dark))
            | inr a ↦ absurd (cc ((info_white_iff c).1 a, black))
          ],
        )
      ]
    ]
