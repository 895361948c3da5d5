-- ===== src/Metrics/Tags/Escapes.antt =====
-- What escaping makes of a text.
use nesquic.Prelude.{
  ℕ, Bool, List, false, ◌==◌, ◌∷◌, [], true, ◌≡◌, if◌then◌else◌, ◌||◌, arith, Bool-cases, refl, inl,
  inr, ==_iff, ap,
}
use nesquic.Metrics.Tags.{escape_tag, replace, backslash, comma, equals_sign, space}

-- The separators of the line protocol.
abbrev pub is_separator : ℕ → Bool
is_separator x = (x == comma) || ((x == equals_sign) || (x == space))

-- One pass instead of three.
escape_tag-cons :
    (x : ℕ) (xs : List ℕ)
    → escape_tag (x ∷ xs)
      ≡ (if is_separator x then backslash ∷ x ∷ escape_tag xs else x ∷ escape_tag xs)
unfolding escape_tag replace
escape_tag-cons x xs = ground arith

-- Every separator in a text, read behind `before`, stands directly behind a backslash.
abbrev pub IsEscaped : ℕ → List ℕ → Type 0
IsEscaped before [] = Unit
IsEscaped before (x ∷ xs) = (is_separator x ≡ true → before ≡ backslash) × IsEscaped x xs

-- No separator is left bare in an escaped text.
escape_tag-IsEscaped : (before : ℕ) (s : List ℕ) → IsEscaped before (escape_tag s)
escape_tag-IsEscaped before [] = unfold escape_tag in unfold replace in tt
escape_tag-IsEscaped before (x ∷ xs) =
    rw (escape_tag-cons x xs) (elim (Bool-cases (is_separator x)) [
      | inl separates ↦ rw separates (λ h. cc, (λ h. refl, escape_tag-IsEscaped x xs))
      | inr differs ↦ rw differs ((λ h. cc (rw differs at h), escape_tag-IsEscaped x xs))
    ])

-- Reads an escaped text back: a backslash before a separator is dropped, and any other is kept. The
-- flag says that a backslash was read last.
unescape_behind : Bool → List ℕ → List ℕ
unescape_behind false [] = []
unescape_behind true [] = backslash ∷ []
unescape_behind false (x ∷ xs) =
    let plain = x ∷ unescape_behind false xs in
    let pending = unescape_behind true xs in if x == backslash then pending else plain
unescape_behind true (x ∷ xs) =
    let plain = x ∷ unescape_behind false xs in
    let pending = unescape_behind true xs in
    if is_separator x then plain else backslash ∷ (if x == backslash then pending else plain)

unfoldable pub unescape : List ℕ → List ℕ
unfolding unescape_behind
unescape s = unescape_behind false s

-- A character that is no separator, before a text that is read back with and without a backslash.
plain_behind :
    (x : ℕ) (escaped xs : List ℕ)
    → unescape_behind true escaped ≡ backslash ∷ xs
    → unescape_behind false escaped ≡ xs
    → (if x == backslash then unescape_behind true escaped else x ∷ unescape_behind false escaped)
      ≡ x ∷ xs
plain_behind x escaped xs on off = elim (Bool-cases (x == backslash)) [
  | inl same ↦ rw same (rw (on, (==_iff x backslash).0 same) refl)
  | inr differs ↦ rw differs (rw off refl)
]

unescape_behind-escape_tag :
    (behind : Bool) (s : List ℕ)
    → unescape_behind behind (escape_tag s) ≡ (if behind then backslash ∷ s else s)
unfolding unescape_behind
unescape_behind-escape_tag false [] = unfold escape_tag in unfold replace in refl
unescape_behind-escape_tag true [] = unfold escape_tag in unfold replace in refl
unescape_behind-escape_tag false (x ∷ xs) =
    let on = unescape_behind-escape_tag true xs in
    let off = unescape_behind-escape_tag false xs in
    rw (escape_tag-cons x xs) (elim (Bool-cases (is_separator x)) [
      | inl separates ↦ rw separates (rw separates (rw off refl))
      | inr differs ↦ rw differs (plain_behind x (escape_tag xs) xs on off)
    ])
unescape_behind-escape_tag true (x ∷ xs) =
    let on = unescape_behind-escape_tag true xs in
    let off = unescape_behind-escape_tag false xs in
    rw (escape_tag-cons x xs) (elim (Bool-cases (is_separator x)) [
      | inl separates ↦ rw separates (rw separates (rw off refl))
      | inr differs ↦ rw differs (
          rw differs
            (ap (λ (t : List ℕ). backslash ∷ t) (plain_behind x (escape_tag xs) xs on off)))
    ])

-- Escaping loses nothing: reading an escaped text back gives the text.
pub unescape-escape_tag : (s : List ℕ) → unescape (escape_tag s) ≡ s
unfolding unescape
unescape-escape_tag s = unescape_behind-escape_tag false s
