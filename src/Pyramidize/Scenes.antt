-- ===== src/Pyramidize/Scenes.antt =====
-- The result of a run: for each scene, the greatest number of layers of its planes.
use czi_pyramidizer.Prelude.{
  ℕ, ◌≡◌, refl, ap, ◌∙◌, sym, List, [], ◌∷◌, ◌++◌, Option, Option-cases, inl, inr, none, some, true,
  false, arith, ltb, Bool-cases, if◌then◌else◌, inl, inr, ==_iff,
}
use czi_pyramidizer.Prelude.Int.{ltb_ℤ, eq_of_parts, ℤ, eqb_ℤ}
use czi_pyramidizer.Prelude.Outcome.{Outcome, ok}
use czi_pyramidizer.Rect.{IntRect, RectOps}
use czi_pyramidizer.CheckForPyramid.{find}
use czi_pyramidizer.Imaging.{Imaging}
use czi_pyramidizer.Dimensions.{Dimensions}
use czi_pyramidizer.Planes.{PlaneEnumerator, PyramidRegion, plane_enumerator, pyramid_regions}
use czi_pyramidizer.OutputTile.{TileInfo}
use czi_pyramidizer.Context.{Context}
use czi_pyramidizer.Pyramidize.{
  Reader, Event, insert, assign, consolidate, do_plane, scene_key, do_planes, execute_planes,
}

abbrev pub greater : ℕ → ℕ → ℕ
greater a b = if ltb a b then b else a

-- The greater one of two numbers, of which either may be missing.
abbrev pub greatest : Option ℕ → Option ℕ → Option ℕ
greatest none o = o
greatest (some a) none = some a
greatest (some a) (some b) = some (greater a b)

-- The greatest number with the key.
abbrev pub maximum_for : ℤ → List (ℤ × ℕ) → Option ℕ
maximum_for key [] = none
maximum_for key ((k, v) ∷ entries) =
    if eqb_ℤ k key then greatest (some v) (maximum_for key entries) else maximum_for key entries

greatest-none : (a : Option ℕ) → greatest a none ≡ a
greatest-none none = refl
greatest-none (some a) = refl

greatest_assoc : (a b c : Option ℕ) → greatest (greatest a b) c ≡ greatest a (greatest b c)
greatest_assoc none b c = refl
greatest_assoc (some a) none c = refl
greatest_assoc (some a) (some b) none = refl
greatest_assoc (some a) (some b) (some c) = ap some (ground arith)

find-same :
    (key k : ℤ) (v : ℕ) (entries : List (ℤ × ℕ))
    → eqb_ℤ k key ≡ true
    → find key ((k, v) ∷ entries) ≡ some v
unfolding find
find-same key k v entries h = rw (find, h) refl

find-other :
    (key k : ℤ) (v : ℕ) (entries : List (ℤ × ℕ))
    → eqb_ℤ k key ≡ false
    → find key ((k, v) ∷ entries) ≡ find key entries
unfolding find
find-other key k v entries h = rw (find, h) refl

eqb_same : (a b c : ℤ) → eqb_ℤ a b ≡ true → eqb_ℤ a c ≡ eqb_ℤ b c
eqb_same a b c h = ground arith

assign-same :
    (s k : ℤ) (n w : ℕ) (info : List (ℤ × ℕ))
    → eqb_ℤ k s ≡ true
    → assign s n ((k, w) ∷ info) ≡ (k, n) ∷ info
unfolding assign
assign-same s k n w info h = rw (assign, h) refl

assign-other :
    (s k : ℤ) (n w : ℕ) (info : List (ℤ × ℕ))
    → eqb_ℤ k s ≡ false
    → assign s n ((k, w) ∷ info) ≡ (k, w) ∷ assign s n info
unfolding assign
assign-other s k n w info h = rw (assign, h) refl

eqb_apart : (a b c : ℤ) → eqb_ℤ a b ≡ false → eqb_ℤ a c ≡ true → eqb_ℤ b c ≡ false
eqb_apart a b c h k = ground arith

find-assign_same :
    (key s : ℤ) (n v : ℕ) (info : List (ℤ × ℕ))
    → eqb_ℤ s key ≡ true
    → find s info ≡ some v
    → find key (assign s n info) ≡ some n
unfolding find assign
find-assign_same key s n v [] e h = cc h
find-assign_same key s n v ((k, w) ∷ info) e h = elim (Bool-cases (eqb_ℤ k s)) [
  | inl same ↦
      ap (find key) (assign-same s k n w info same)
      ∙ find-same key k n info (eqb_same k s key same ∙ e)
  | inr other ↦
      ap (find key) (assign-other s k n w info other)
      ∙ find-other key k w (assign s n info) (ground arith)
      ∙ find-assign_same key s n v info e (sym (find-other s k w info other) ∙ h)
]

find-assign_other :
    (key s : ℤ) (n : ℕ) (info : List (ℤ × ℕ))
    → eqb_ℤ s key ≡ false
    → find key (assign s n info) ≡ find key info
unfolding find assign
find-assign_other key s n [] e = refl
find-assign_other key s n ((k, w) ∷ info) e = elim (Bool-cases (eqb_ℤ k s)) [
  | inl same ↦
      let apart : eqb_ℤ k key ≡ false = eqb_same k s key same ∙ e in
      ap (find key) (assign-same s k n w info same)
      ∙ find-other key k n info apart
      ∙ sym (find-other key k w info apart)
  | inr other ↦ ap (find key) (assign-other s k n w info other) ∙ elim (Bool-cases (eqb_ℤ k key)) [
    | inl same ↦ find-same key k w (assign s n info) same ∙ sym (find-same key k w info same)
    | inr apart ↦
        find-other key k w (assign s n info) apart
        ∙ find-assign_other key s n info e
        ∙ sym (find-other key k w info apart)
  ]
]

insert-first :
    (s k : ℤ) (n v : ℕ) (info : List (ℤ × ℕ))
    → ltb_ℤ s k ≡ true
    → insert s n ((k, v) ∷ info) ≡ (s, n) ∷ (k, v) ∷ info
unfolding insert
insert-first s k n v info h = rw (insert, h) refl

insert-later :
    (s k : ℤ) (n v : ℕ) (info : List (ℤ × ℕ))
    → ltb_ℤ s k ≡ false
    → insert s n ((k, v) ∷ info) ≡ (k, v) ∷ insert s n info
unfolding insert
insert-later s k n v info h = rw (insert, h) refl

find-insert_same :
    (key s : ℤ) (n : ℕ) (info : List (ℤ × ℕ))
    → eqb_ℤ s key ≡ true
    → find s info ≡ none
    → find key (insert s n info) ≡ some n
unfolding find insert
find-insert_same key s n [] e h = find-same key s n [] e
find-insert_same key s n ((k, v) ∷ info) e h = elim (Bool-cases (ltb_ℤ s k)) [
  | inl less ↦ ap (find key) (insert-first s k n v info less) ∙ find-same key s n ((k, v) ∷ info) e
  | inr more ↦ elim (Bool-cases (eqb_ℤ k s)) [
    | inl same ↦ absurd (cc (find-same s k v info same, h))
    | inr other ↦
        ap (find key) (insert-later s k n v info more)
        ∙ find-other key k v (insert s n info) (ground arith)
        ∙ find-insert_same key s n info e (sym (find-other s k v info other) ∙ h)
  ]
]

find-insert_other :
    (key s : ℤ) (n : ℕ) (info : List (ℤ × ℕ))
    → eqb_ℤ s key ≡ false
    → find key (insert s n info) ≡ find key info
unfolding find insert
find-insert_other key s n [] e = find-other key s n [] e
find-insert_other key s n ((k, v) ∷ info) e = elim (Bool-cases (ltb_ℤ s k)) [
  | inl less ↦ ap (find key) (insert-first s k n v info less) ∙ find-other key s n ((k, v) ∷ info) e
  | inr more ↦ ap (find key) (insert-later s k n v info more) ∙ elim (Bool-cases (eqb_ℤ k key)) [
    | inl same ↦ find-same key k v (insert s n info) same ∙ sym (find-same key k v info same)
    | inr apart ↦
        find-other key k v (insert s n info) apart
        ∙ find-insert_other key s n info e
        ∙ sym (find-other key k v info apart)
  ]
]

-- Equal keys find the same.
find-equal : (a b : ℤ) (info : List (ℤ × ℕ)) → eqb_ℤ a b ≡ true → find a info ≡ find b info
find-equal a b info h = ap (λ k. find k info) (eq_of_parts a b ((==_iff _ _).0 h))

consolidate-none :
    (s : ℤ) (n : ℕ) (info : List (ℤ × ℕ))
    → find s info ≡ none
    → consolidate s n info ≡ insert s n info
unfolding consolidate
consolidate-none s n info h = rw (consolidate, h) refl

consolidate-some :
    (s : ℤ) (n v : ℕ) (info : List (ℤ × ℕ))
    → find s info ≡ some v
    → consolidate s n info ≡ assign s (greater v n) info
unfolding consolidate
consolidate-some s n v info h = rw (consolidate, h) refl

-- One round of the consolidation.
find-consolidate_same :
    (key s : ℤ) (n : ℕ) (info : List (ℤ × ℕ))
    → eqb_ℤ s key ≡ true
    → find key (consolidate s n info) ≡ greatest (find key info) (some n)
find-consolidate_same key s n info e = elim (Option-cases (find s info)) [
  | inl h ↦
      ap (find key) (consolidate-none s n info h)
      ∙ find-insert_same key s n info e h
      ∙ ap (λ o. greatest o (some n)) (sym h ∙ find-equal s key info e)
  | inr (v, h) ↦
      ap (find key) (consolidate-some s n v info h)
      ∙ find-assign_same key s (greater v n) v info e h
      ∙ ap (λ o. greatest o (some n)) (sym h ∙ find-equal s key info e)
]

find-consolidate_other :
    (key s : ℤ) (n : ℕ) (info : List (ℤ × ℕ))
    → eqb_ℤ s key ≡ false
    → find key (consolidate s n info) ≡ find key info
find-consolidate_other key s n info e = elim (Option-cases (find s info)) [
  | inl h ↦ ap (find key) (consolidate-none s n info h) ∙ find-insert_other key s n info e
  | inr (v, h) ↦
      ap (find key) (consolidate-some s n v info h) ∙ find-assign_other key s (greater v n) info e
]

max-same :
    (key s : ℤ) (n : ℕ) (rest : List (ℤ × ℕ))
    → eqb_ℤ s key ≡ true
    → maximum_for key ((s, n) ∷ rest) ≡ greatest (some n) (maximum_for key rest)
max-same key s n rest e = rw e refl

max-other :
    (key s : ℤ) (n : ℕ) (rest : List (ℤ × ℕ))
    → eqb_ℤ s key ≡ false
    → maximum_for key ((s, n) ∷ rest) ≡ maximum_for key rest
max-other key s n rest e = rw e refl

consolidate_round :
    (key s : ℤ) (n : ℕ) (info rest : List (ℤ × ℕ))
    → greatest (find key (consolidate s n info)) (maximum_for key rest)
      ≡ greatest (find key info) (maximum_for key ((s, n) ∷ rest))
consolidate_round key s n info rest = elim (Bool-cases (eqb_ℤ s key)) [
  | inl same ↦
      ap (λ o. greatest o (maximum_for key rest)) (find-consolidate_same key s n info same)
      ∙ greatest_assoc (find key info) (some n) (maximum_for key rest)
      ∙ ap (greatest (find key info)) (sym (max-same key s n rest same))
  | inr other ↦
      ap (λ o. greatest o (maximum_for key rest)) (find-consolidate_other key s n info other)
      ∙ ap (greatest (find key info)) (sym (max-other key s n rest other))
]

module _ (dims : Dimensions) (ops : RectOps) (img : Imaging) {Color Parameters : Type 0}
    (white black : Color) (reader : Reader dims img.Image Color)
    (write : img.Image → dims.Coordinate → IntRect → Outcome (TileInfo dims.Coordinate))
    (context : Context Parameters) where
  abbrev plane_result : PyramidRegion dims → Outcome (List (Event dims.Coordinate) × ℕ)
  plane_result region = do_plane dims ops img white black reader write context region

  -- What `DoPlane` returns for each region.
  abbrev pub AllDone : List (PyramidRegion dims) → List (List (Event dims.Coordinate) × ℕ) → Type 0
  AllDone [] [] = Unit
  AllDone [] (result ∷ results) = ⊥
  AllDone (region ∷ regions) [] = ⊥
  AllDone (region ∷ regions) (result ∷ results) =
      (plane_result region ≡ ok result) × AllDone regions results

  abbrev pub key_of : PyramidRegion dims → ℤ
  key_of region = scene_key dims ops img white black reader write context region

  -- The scenes of the regions with the numbers of layers.
  abbrev pub scene_layers :
      List (PyramidRegion dims) → List (List (Event dims.Coordinate) × ℕ) → List (ℤ × ℕ)
  scene_layers [] results = []
  scene_layers (region ∷ regions) [] = []
  scene_layers (region ∷ regions) (result ∷ results) =
      (key_of region, result.1) ∷ scene_layers regions results

  abbrev pub all_events : List (List (Event dims.Coordinate) × ℕ) → List (Event dims.Coordinate)
  all_events [] = []
  all_events (result ∷ results) = result.0 ++ all_events results

  do_planes_from :
      (regions : List (PyramidRegion dims)) (results : List (List (Event dims.Coordinate) × ℕ))
      (info : List (ℤ × ℕ))
      → AllDone regions results
      → (after : List (ℤ × ℕ)) × (do_planes dims ops img white black reader write context regions
            info
          ≡ ok (all_events results, after))
        × ((key : ℤ)
            → find key after
              ≡ greatest (find key info) (maximum_for key (scene_layers regions results)))
  unfolding do_planes
  do_planes_from [] [] info all = (info, refl, λ key. sym (greatest-none (find key info)))
  do_planes_from [] (result ∷ results) info all = absurd all
  do_planes_from (region ∷ regions) [] info all = absurd all
  do_planes_from (region ∷ regions) (result ∷ results) info (done, all) =
      let (after, e, found) =
        do_planes_from regions results (consolidate (key_of region) result.1 info) all in
      (
        after,
        rw (done, e) refl,
        λ key.
            found key
            ∙ consolidate_round key (key_of region) result.1 info (scene_layers regions results),
      )

  -- Where every plane returns, `Execute` returns: its calls are those of the planes, in order, and its
  -- result has, for each scene, the greatest number of layers of a plane of the scene, and no entry
  -- for any other key. Planes without a scene count for the key `int_min`.
  pub execute_planes-maximum :
      (e : PlaneEnumerator dims) (regions : List (PyramidRegion dims))
      (results : List (List (Event dims.Coordinate) × ℕ))
      → plane_enumerator dims reader.statistics reader.dim_bounds ≡ ok e
      → pyramid_regions dims e ≡ ok regions
      → AllDone regions results
      → (info : List (ℤ × ℕ)) × (execute_planes dims ops img white black reader write context
          ≡ ok (all_events results, info))
        × ((key : ℤ) → find key info ≡ maximum_for key (scene_layers regions results))
  unfolding execute_planes find
  execute_planes-maximum e regions results made enumerated all =
      let (info, done, found) = do_planes_from regions results [] all in
      (info, rw (made, enumerated) done, found)
