-- ===== src/Text/Pieces.antt =====
-- The pieces of a text that is put together from them.
use nesquic.Prelude.{ℕ, ◌≡◌, [], ◌∷◌, ◌++◌, false, refl, All, ==_iff, ◌==◌}
use nesquic.Text.{Text, split}

-- A text without the separator.
abbrev pub IsPiece : ℕ → Text → Type 0
IsPiece sep = All (λ c. (c == sep) ≡ false)

pub split-append :
    (sep : ℕ) (s t : Text) → IsPiece sep s → split sep (s ++ (sep ∷ t)) ≡ s ∷ split sep t
unfolding split
split-append sep [] t h = rw ((==_iff sep sep).1 refl) refl
split-append sep (c ∷ s) t h = rw (h.0, split-append sep s t h.1) refl

pub split-piece : (sep : ℕ) (s : Text) → IsPiece sep s → split sep s ≡ s ∷ []
unfolding split
split-piece sep [] h = refl
split-piece sep (c ∷ s) h = rw (h.0, split-piece sep s h.1) refl
