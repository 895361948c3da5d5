-- ===== src/Metrics/Sort.antt =====
-- `Vec::sort` of strings: by code points, which is the order of their UTF-8 bytes.
use nesquic.Prelude.{
  ℕ, List, [], ◌∷◌, Bool, true, false, ltb, ◌==◌, ◌&&◌, if◌then◌else◌, ◌≡◌, refl, arith,
}
use mathlib.Core.List.{foldr, Perm}
use mathlib.Core.List.Perm

leb_text : List ℕ → List ℕ → Bool
leb_text [] ys = true
leb_text (x ∷ xs) [] = false
leb_text (x ∷ xs) (y ∷ ys) = let rest = leb_text xs ys in if ltb x y then true else (x == y) && rest

insert_text : List ℕ → List (List ℕ) → List (List ℕ)
insert_text a [] = a ∷ []
insert_text a (b ∷ bs) =
    let rest = insert_text a bs in if leb_text a b then a ∷ b ∷ bs else b ∷ rest

unfoldable pub sort : List (List ℕ) → List (List ℕ)
unfolding insert_text leb_text
sort = foldr insert_text []

leb_text_total : (xs ys : List ℕ) → leb_text xs ys ≡ false → leb_text ys xs ≡ true
unfolding leb_text
leb_text_total [] ys h = cc
leb_text_total (x ∷ xs) [] h = refl
leb_text_total (x ∷ xs) (y ∷ ys) h = let rec_eq = leb_text_total xs ys in ground arith

leb_text_antisym : (xs ys : List ℕ) → leb_text xs ys ≡ true → leb_text ys xs ≡ true → xs ≡ ys
unfolding leb_text
leb_text_antisym [] [] h k = refl
leb_text_antisym [] (y ∷ ys) h k = cc
leb_text_antisym (x ∷ xs) [] h k = cc
leb_text_antisym (x ∷ xs) (y ∷ ys) h k = let rec_eq = leb_text_antisym xs ys in ground arith

leb_text_trans :
    (xs ys zs : List ℕ) → leb_text xs ys ≡ true → leb_text ys zs ≡ true → leb_text xs zs ≡ true
unfolding leb_text
leb_text_trans [] ys zs h k = refl
leb_text_trans (x ∷ xs) [] zs h k = cc
leb_text_trans (x ∷ xs) (y ∷ ys) [] h k = cc
leb_text_trans (x ∷ xs) (y ∷ ys) (z ∷ zs) h k = let rec_eq = leb_text_trans xs ys zs in ground arith

-- Inserting in either order gives the same list.
insert_text_comm :
    (a b : List ℕ) (cs : List (List ℕ))
    → insert_text a (insert_text b cs) ≡ insert_text b (insert_text a cs)
unfolding insert_text
insert_text_comm a b [] =
    let total = leb_text_total a b in let antisym = leb_text_antisym a b in ground arith
insert_text_comm a b (c ∷ cs) =
    let total = leb_text_total a b in
    let antisym = leb_text_antisym a b in
    let below = leb_text_trans a b c in
    let above = leb_text_trans b a c in let rec_eq = insert_text_comm a b cs in ground arith

-- The order of a list does not matter to its sorting.
pub sort-Perm : {xs ys : List (List ℕ)} → Perm xs ys → sort xs ≡ sort ys
unfolding sort
sort-Perm p =
    let texts : IsSet (List (List ℕ)) = hlevel in
    Perm.foldr-eq texts insert_text insert_text_comm p []
