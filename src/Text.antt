-- ===== src/Text.antt =====
-- Texts as lists of code points, with what the programs use of Rust's `str`.
pub mod Pieces
use Prim.Native.Char.{code}
use Prim.Native.String.{String}
use nesquic.Prelude.{
  ℕ, List, [], ◌∷◌, Bool, if◌then◌else◌, reverse, ◌≡◌, leb, true, ◌==◌, false, ◌&&◌, ◌↔◌, ==_iff,
  ◌||◌, arith, refl, Bool-cases, inl, ◌∙◌, sym, inr,
}

abbrev pub Text : Type 0
Text = List ℕ

-- A literal of the source.
abbrev pub codes : String → Text
codes String.[] = []
codes (String.◌∷◌ c s) = code c ∷ codes s

unfoldable pub eq_text : Text → Text → Bool
eq_text [] [] = true
eq_text [] (y ∷ ys) = false
eq_text (x ∷ xs) [] = false
eq_text (x ∷ xs) (y ∷ ys) = (x == y) && eq_text xs ys

pub eq_text_iff : (s t : Text) → (eq_text s t ≡ true) ↔ (s ≡ t)
unfolding eq_text
eq_text_iff s t = (there s t, λ e. rw e (self t))
  where
    self : (s : Text) → eq_text s s ≡ true
    self [] = refl
    self (x ∷ s) = rw ((==_iff x x).1 refl) (self s)

    there : (s t : Text) → eq_text s t ≡ true → s ≡ t
    there [] [] h = refl
    there [] (y ∷ t) h = cc
    there (x ∷ s) [] h = cc
    there (x ∷ s) (y ∷ t) h = let rec_eq = there s t in ground arith

-- What is one text is not another.
pub eq_text_one : (s t u : Text) → eq_text s t ≡ false → eq_text s u ≡ true → eq_text t u ≡ false
eq_text_one s t u differs same = elim (Bool-cases (eq_text t u)) [
  | inl both ↦
      let equal : s ≡ t = (eq_text_iff s u).0 same ∙ sym ((eq_text_iff t u).0 both) in
      cc (rw ((eq_text_iff s t).1 equal) at differs)
  | inr other ↦ other
]

-- `char::is_whitespace`
abbrev pub is_whitespace : ℕ → Bool
is_whitespace c =
    (leb 9 c && leb c 13)
    || ((c == 32)
        || ((c == 133)
            || ((c == 160)
                || ((c == 5760)
                    || ((leb 8192 c && leb c 8202)
                        || ((c == 8232)
                            || ((c == 8233) || ((c == 8239) || ((c == 8287) || (c == 12288))))))))))

trim_start : Text → Text
trim_start [] = []
trim_start (c ∷ s) = let rest = trim_start s in if is_whitespace c then rest else c ∷ s

unfoldable pub trim : Text → Text
unfolding trim_start
trim s = reverse (trim_start (reverse (trim_start s)))

-- The pieces between the separators: there is always a first one.
cons_first : ℕ → List Text → List Text
cons_first c [] = (c ∷ []) ∷ []
cons_first c (piece ∷ pieces) = (c ∷ piece) ∷ pieces

unfoldable pub split : ℕ → Text → List Text
unfolding cons_first
split sep [] = [] ∷ []
split sep (c ∷ s) = let rest = split sep s in if c == sep then [] ∷ rest else cons_first c rest

-- A last piece that is empty is left out.
drop_empty_last : List Text → List Text
drop_empty_last [] = []
drop_empty_last ([] ∷ []) = []
drop_empty_last ((c ∷ s) ∷ []) = (c ∷ s) ∷ []
drop_empty_last (piece ∷ other ∷ pieces) = piece ∷ drop_empty_last (other ∷ pieces)

unfoldable pub split_terminator : ℕ → Text → List Text
unfolding drop_empty_last
split_terminator sep s = drop_empty_last (split sep s)
