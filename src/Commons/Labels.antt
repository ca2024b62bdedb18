-- ===== src/Commons/Labels.antt =====
-- commons/util.go: `LabelsToMap`. A map is a list of its entries.
use agents_go.Prelude.{◌≡◌, refl, List, [], ◌∷◌, Text, codes, Result, ok, err, ◌>>=◌, Fault, panics}
use agents_go.Commons.{put}

-- An argument of type `any`: a string or something else.
pub data Label : Type 0 where
  text_label : Text → Label
  other_label : Label

-- A round of the loop, with the map so far.
set_label : Label → Label → List (Text × Text) → List (Text × Text)
unfolding put
set_label (text_label key) (text_label value) m = put key value m
set_label (text_label key) other_label m = m
set_label other_label value m = m

set_labels : List Label → List (Text × Text) → List (Text × Text)
unfolding set_label
set_labels [] m = m
set_labels (label ∷ []) m = m
set_labels (key ∷ value ∷ labels) m = set_labels labels (set_label key value m)

-- The test of the length.
in_pairs : {E : Type 0} → List Label → Result (Fault E) (List Label)
in_pairs [] = ok []
in_pairs (label ∷ []) = err panics
in_pairs (key ∷ value ∷ labels) = do rest ← in_pairs labels; ok (key ∷ value ∷ rest)

unfoldable pub labels_to_map : {E : Type 0} → List Label → Result (Fault E) (List (Text × Text))
unfolding in_pairs set_labels
labels_to_map labels = do pairs ← in_pairs labels; ok (set_labels pairs [])

-- A later value of the same label counts, and a value that is no string is dropped.
last_value :
    labels_to_map {E = Text} (
      text_label (codes "a")
      ∷ text_label (codes "1")
      ∷ text_label (codes "b")
      ∷ other_label
      ∷ text_label (codes "a")
      ∷ text_label (codes "2")
      ∷ [])
    ≡ ok ((codes "a", codes "2") ∷ [])
unfolding labels_to_map
last_value = refl

odd_labels : labels_to_map {E = Text} (text_label (codes "a") ∷ []) ≡ err panics
unfolding labels_to_map
odd_labels = refl
