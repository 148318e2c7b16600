-- ===== src/Background/Light.antt =====
-- The lights that make the background of a channel white.
use czi_pyramidizer.Prelude.{
  ◌≡◌, refl, ap, ◌↔◌, ◌⊎◌, inl, inr, [], ◌∷◌, Option, none, some, Bool, true, false, ◌||◌, arith,
  Bool-cases,
}
use czi_pyramidizer.Console.{Text, codes}
use czi_pyramidizer.Background.{
  XmlNode, IlluminationType, transmitted, oblique, other, same_text, is_white_node,
  is_white_channel,
}

-- A node of a channel, and one whose illumination is named as transmitted or reflected light.
abbrev pub IsChannel : XmlNode → Type 0
IsChannel node = node.name ≡ codes "Channel"

abbrev pub IsWhiteNode : XmlNode → Type 0
IsWhiteNode node =
    (node.illumination_type ≡ some (some (codes "Transmitted")))
    ⊎ (node.illumination_type ≡ some (some (codes "Reflected")))

-- A channel of the document info whose illumination is known, as transmitted or oblique light.
abbrev pub IsWhiteChannel : Option (Option IlluminationType) → Type 0
IsWhiteChannel channel = (channel ≡ some (some transmitted)) ⊎ (channel ≡ some (some oblique))

abbrev pub is_channel : XmlNode → Bool
is_channel node = same_text node.name (codes "Channel")

pub same_text→≡ : (s t : Text) → same_text s t ≡ true → s ≡ t
unfolding same_text
same_text→≡ [] [] h = refl
same_text→≡ [] (d ∷ t) h = cc
same_text→≡ (c ∷ s) [] h = cc
same_text→≡ (c ∷ s) (d ∷ t) h = ground (arith, same_text→≡ s t)

or-true : (b : Bool) → (b || true) ≡ true
or-true true = refl
or-true false = refl

same_text_refl : (t : Text) → same_text t t ≡ true
unfolding same_text
same_text_refl [] = refl
same_text_refl (c ∷ t) = ground (arith, same_text_refl t)

same_text_iff : (s t : Text) → (same_text s t ≡ true) ↔ (s ≡ t)
same_text_iff s t = (same_text→≡ s t, λ e. rw e (same_text_refl t))

-- By the light that the node names.
is_white_light :
    (name : Text) (light : Option (Option Text))
    → (is_white_node (record { name = name; illumination_type = light }) ≡ true)
      ↔ ((light ≡ some (some (codes "Transmitted"))) ⊎ (light ≡ some (some (codes "Reflected"))))
unfolding is_white_node
is_white_light name none = (λ h. cc h, λ h. elim h [ inl k ↦ cc k | inr k ↦ cc k ])
is_white_light name (some none) = (λ h. cc h, λ h. elim h [ inl k ↦ cc k | inr k ↦ cc k ])
is_white_light name (some (some value)) = (
  λ h. elim (Bool-cases (same_text value (codes "Transmitted"))) [
    | inl e ↦ inl (ap (λ t. some (some t)) (same_text→≡ value (codes "Transmitted") e))
    | inr e ↦ inr (ap (λ t. some (some t)) (same_text→≡ value (codes "Reflected") (rw e at h)))
  ],
  λ h. elim h [
    | inl k ↦
        let e : value ≡ codes "Transmitted" = cc k in
        rw ((same_text_iff value (codes "Transmitted")).1 e) refl
    | inr k ↦
        let e : value ≡ codes "Reflected" = cc k in
        rw ((same_text_iff value (codes "Reflected")).1 e) (or-true _)
  ],
)

pub is_white_node_iff : (node : XmlNode) → (is_white_node node ≡ true) ↔ IsWhiteNode node
is_white_node_iff node = is_white_light node.name node.illumination_type

pub is_channel_iff : (node : XmlNode) → (is_channel node ≡ true) ↔ IsChannel node
is_channel_iff node = same_text_iff node.name (codes "Channel")

pub is_white_channel_iff :
    (channel : Option (Option IlluminationType))
    → (is_white_channel channel ≡ true) ↔ IsWhiteChannel channel
unfolding is_white_channel
is_white_channel_iff none = (λ h. cc h, λ h. elim h [ inl k ↦ cc k | inr k ↦ cc k ])
is_white_channel_iff (some none) = (λ h. cc h, λ h. elim h [ inl k ↦ cc k | inr k ↦ cc k ])
is_white_channel_iff (some (some transmitted)) = (λ h. inl refl, λ h. refl)
is_white_channel_iff (some (some oblique)) = (λ h. inr refl, λ h. refl)
is_white_channel_iff (some (some other)) = (λ h. cc h, λ h. elim h [ inl k ↦ cc k | inr k ↦ cc k ])
