-- ===== src/Labels.antt =====
-- The labels of a run: what `build_labels` of iut/common/src/lib.rs and `labels` of
-- nesquic/src/main.rs share. A map from texts to texts is a function.
pub mod Parsing
pub mod Override
mod Tests
use nesquic.Text.{Text, codes, eq_text, trim, split_terminator}
use nesquic.Prelude.{
  Outcome, if◌then◌else◌, List, Option, map, none, some, ok, panic, ◌>>=◌, ◌∷◌, [],
}

abbrev pub Labels : Type 0
Labels = Text → Option Text

abbrev pub no_labels : Labels
no_labels key = none

unfoldable pub insert_label : Text → Text → Labels → Labels
insert_label k v labels key = if eq_text key k then some v else labels key

-- `(hs[0].to_string(), hs[1].to_string())` panics where there are fewer than two pieces.
first_two : List Text → Outcome (Text × Text)
first_two [] = panic
first_two (k ∷ []) = panic
first_two (k ∷ v ∷ more) = ok (k, v)

unfoldable pub parse_label : Text → Outcome (Text × Text)
unfolding first_two
parse_label h = first_two (map trim (split_terminator 58 h))

-- The iterator that `collect` drains: a panic of one label ends it.
unfoldable pub parse_labels : List Text → Outcome (List (Text × Text))
parse_labels [] = ok []
parse_labels (h ∷ hs) = do pair ← parse_label h; pairs ← parse_labels hs; ok (pair ∷ pairs)

-- `collect::<HashMap<_, _>>()` inserts in order, so the last value of a key stays.
collect_onto : Labels → List (Text × Text) → Labels
collect_onto labels [] = labels
collect_onto labels ((k, v) ∷ pairs) = collect_onto (insert_label k v labels) pairs

unfoldable pub collect : List (Text × Text) → Labels
unfolding collect_onto
collect pairs = collect_onto no_labels pairs

abbrev pub or_else : Option Text → Option Text → Option Text
or_else none d = d
or_else (some v) d = some v

-- `labels.extend(run_labels)`; the order in which a map is iterated does not matter, since its keys
-- are distinct.
unfoldable pub extend : Labels → Labels → Labels
extend labels more key = or_else (more key) (labels key)

unfoldable pub run_labels : Option (List Text) → Outcome Labels
run_labels none = ok no_labels
run_labels (some hs) = do pairs ← parse_labels hs; ok (collect pairs)
