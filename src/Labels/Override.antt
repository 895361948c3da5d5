-- ===== src/Labels/Override.antt =====
-- Which value a label has in the end.
use nesquic.Prelude.{
  ◌≡◌, List, [], ◌∷◌, Option, none, some, refl, if◌then◌else◌, Bool, ◌∙◌, Option-cases, true, false,
  inl, inr, ap,
}
use nesquic.Text.{Text, eq_text}
use nesquic.Labels.{or_else, Labels, insert_label, collect, extend, collect_onto, no_labels}

-- The value of the last pair with a key.
unfoldable pub last_value : Text → List (Text × Text) → Option Text
last_value key [] = none
last_value key ((k, v) ∷ pairs) = elim (last_value key pairs) [
  | some w ↦ some w
  | none ↦ if eq_text key k then some v else none
]

inserted :
    (b : Bool) (v : Text) (d : Option Text)
    → (if b then some v else d) ≡ or_else (if b then some v else none) d
inserted true v d = refl
inserted false v d = refl

-- A pair in front gives the value that there is without the others.
pub last_value-cons :
    (k v : Text) (pairs : List (Text × Text)) (key : Text) (d : Option Text)
    → or_else (last_value key pairs) (if eq_text key k then some v else d)
      ≡ or_else (last_value key ((k, v) ∷ pairs)) d
unfolding last_value
last_value-cons k v pairs key d = elim (Option-cases (last_value key pairs)) [
  | inl missing ↦ rw missing (inserted (eq_text key k) v d)
  | inr (w, found) ↦ rw found refl
]

collect_onto-last :
    (labels : Labels) (pairs : List (Text × Text)) (key : Text)
    → collect_onto labels pairs key ≡ or_else (last_value key pairs) (labels key)
unfolding collect_onto last_value insert_label
collect_onto-last labels [] key = refl
collect_onto-last labels ((k, v) ∷ pairs) key =
    collect_onto-last (insert_label k v labels) pairs key
    ∙ last_value-cons k v pairs key (labels key)

pub or_else-none : (o : Option Text) → or_else o none ≡ o
or_else-none none = refl
or_else-none (some v) = refl

-- Labels of the command line come before the ones that the program sets, and of several with one key
-- the last counts.
pub extend-collect :
    (labels : Labels) (pairs : List (Text × Text)) (key : Text)
    → extend labels (collect pairs) key ≡ or_else (last_value key pairs) (labels key)
unfolding extend collect
extend-collect labels pairs key =
    ap (λ (o : Option Text). or_else o (labels key))
      (collect_onto-last no_labels pairs key ∙ or_else-none (last_value key pairs))
