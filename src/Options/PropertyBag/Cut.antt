-- ===== src/Options/PropertyBag/Cut.antt =====
-- Texts that are cut at a NUL character.
use czi_pyramidizer.Prelude.{
  ◌≡◌, ◌≢◌, refl, ap, ◌∙◌, ◌⊎◌, inl, inr, arith, ◌==◌, [], ◌∷◌, ◌++◌, Bool-cases, All,
}
use czi_pyramidizer.Console.{Text}
use czi_pyramidizer.Options.PropertyBag.{until_nul}

-- The text up to its first NUL character.
pub record IsCut (text cut : Text) : Type 0 where
  pub tail : Text
  pub is_start : text ≡ cut ++ tail
  pub no_nul : All (λ c. c ≢ 0) cut
  pub at_nul : (tail ≡ []) ⊎ ((later : Text) × (tail ≡ 0 ∷ later))

pub until_nul-IsCut : (text : Text) → IsCut text (until_nul text)
unfolding until_nul
until_nul-IsCut [] = record { tail = []; is_start = refl; no_nul = tt; at_nul = inl refl }
until_nul-IsCut (c ∷ s) = elim (Bool-cases (c == 0)) [
  | inl nul ↦
      let e : c ≡ 0 = ground arith in
      rw nul
        (record { tail = c ∷ s; is_start = refl; no_nul = tt; at_nul = inr (s, ap (λ n. n ∷ s) e) })
  | inr more ↦
      let cut = until_nul-IsCut s in
      rw more (record {
        tail = cut.tail;
        is_start = ap (λ t. c ∷ t) cut.is_start;
        no_nul = (ground arith, cut.no_nul);
        at_nul = cut.at_nul;
      })
]

cut-until_nul :
    (cut tail : Text)
    → All (λ c. c ≢ 0) cut
    → (tail ≡ []) ⊎ ((later : Text) × (tail ≡ 0 ∷ later))
    → until_nul (cut ++ tail) ≡ cut
unfolding until_nul
cut-until_nul [] tail h (inl e) = rw e
cut-until_nul [] tail h (inr (later, e)) = rw e
cut-until_nul (c ∷ cut) tail (h, hs) e = ground (arith, cut-until_nul cut tail hs e)

-- There is one such text only.
pub until_nul-cut : (text cut : Text) → IsCut text cut → until_nul text ≡ cut
until_nul-cut text cut c = ap until_nul c.is_start ∙ cut-until_nul cut c.tail c.no_nul c.at_nul
