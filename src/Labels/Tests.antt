-- ===== src/Labels/Tests.antt =====
-- Labels on small texts.
use nesquic.Prelude.{◌≡◌, refl, List, [], ◌∷◌, ok, panic, ◌++◌, some}
use nesquic.Text.{codes, Text, split_terminator, split, trim, eq_text}
use nesquic.Labels.{parse_label, Labels, insert_label, no_labels}
use nesquic.Labels.Parsing.{parse_label-panic}
use nesquic.Labels.Override.{last_value}

spaced : parse_label (codes " lib : x ") ≡ ok (codes "lib", codes "x")
unfolding parse_label split_terminator split trim
spaced = refl

parse_label-panic_example :
    (parse_label (codes "lib") ≡ panic) × (parse_label (codes "lib" ++ (58 ∷ [])) ≡ panic)
parse_label-panic_example = parse_label-panic (codes "lib") (refl, (refl, (refl, tt)))

abbrev own : Labels
own = insert_label (codes "mode") (codes "client") no_labels

abbrev given : List (Text × Text)
given = (codes "mode", codes "a") ∷ (codes "mode", codes "b") ∷ []

last_given : last_value (codes "mode") given ≡ some (codes "b")
unfolding last_value eq_text
last_given = refl
