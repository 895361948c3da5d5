-- ===== src/Labels/Parsing.antt =====
-- Which labels are read, and how.
use nesquic.Prelude.{
  ℕ, ◌≡◌, [], ◌∷◌, ◌++◌, ok, panic, refl, List, map, IsFaultless-bind, IsFaultless,
}
use nesquic.Text.{Text, trim, split, split_terminator}
use nesquic.Text.Pieces.{IsPiece, split-append, split-piece}
use nesquic.Labels.{parse_label, parse_labels, first_two}

-- A label `k:v`, where neither has a colon and `v` is not empty, is read as the two of them without
-- the white space around them.
parse_label-pair :
    (k : Text) (c : ℕ) (v : Text)
    → IsPiece 58 k
    → IsPiece 58 (c ∷ v)
    → parse_label (k ++ (58 ∷ c ∷ v)) ≡ ok (trim k, trim (c ∷ v))
unfolding parse_label split_terminator
parse_label-pair k c v hk hv = rw (split-append 58 k (c ∷ v) hk, split-piece 58 (c ∷ v) hv) refl

-- A label without a colon panics, and so does one whose only colon is its last character.
pub parse_label-panic :
    (k : Text) → IsPiece 58 k → (parse_label k ≡ panic) × (parse_label (k ++ (58 ∷ [])) ≡ panic)
unfolding parse_label split_terminator split
parse_label-panic [] h = (refl, refl)
parse_label-panic (c ∷ k) h =
    (rw (split-piece 58 (c ∷ k) h) refl, rw (split-append 58 (c ∷ k) [] h) refl)

first_two-IsFaultless : (pieces : List Text) → IsFaultless (first_two pieces)
unfolding first_two
first_two-IsFaultless [] = tt
first_two-IsFaultless (k ∷ []) = tt
first_two-IsFaultless (k ∷ v ∷ more) = tt

-- Labels are read or they panic.
pub parse_labels-IsFaultless : (hs : List Text) → IsFaultless (parse_labels hs)
unfolding parse_labels parse_label
parse_labels-IsFaultless [] = tt
parse_labels-IsFaultless (h ∷ hs) =
    IsFaultless-bind (parse_label h) _ (first_two-IsFaultless (map trim (split_terminator 58 h)))
      (λ pair. IsFaultless-bind (parse_labels hs) _ (parse_labels-IsFaultless hs) (λ pairs. tt))
