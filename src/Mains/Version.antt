-- ===== src/Mains/Version.antt =====
-- The version of a library, as the `main` functions look it up.
use nesquic.Prelude.{
  List, [], ◌∷◌, ◌++◌, Option, none, some, Bool, true, false, ◌≡◌, ◌==◌, ◌&&◌, ◌||◌, if◌then◌else◌,
  unwrap_or, refl, All,
}
use nesquic.Text.{Text, codes}

starts_with : Text → Text → Bool
starts_with [] s = true
starts_with (c ∷ pattern) [] = false
starts_with (c ∷ pattern) (d ∷ s) = (c == d) && starts_with pattern s

-- `str::contains`
contains : Text → Text → Bool
contains pattern [] = starts_with pattern []
contains pattern (c ∷ s) = starts_with pattern (c ∷ s) || contains pattern s

-- `find` on the names, and the version beside the name
find_version : Text → List (Text × Text) → Option Text
find_version pattern [] = none
find_version pattern ((name, version) ∷ dependencies) =
    let rest = find_version pattern dependencies in
    if contains pattern name then some version else rest

pub lib_version : Text → List (Text × Text) → Text
lib_version pattern dependencies = unwrap_or (codes "unknown") (find_version pattern dependencies)

Without : Text → List (Text × Text) → Type 0
Without pattern = All (λ (d : Text × Text). contains pattern d.0 ≡ false)

-- The version is that of the first dependency whose name has the library's in it.
lib_version-first :
    (pattern : Text) (before : List (Text × Text)) (name version : Text)
    (after : List (Text × Text))
    → Without pattern before
    → contains pattern name ≡ true
    → lib_version pattern (before ++ ((name, version) ∷ after)) ≡ version
unfolding lib_version find_version Without
lib_version-first pattern [] name version after none_before found = rw found refl
lib_version-first pattern ((other, v) ∷ before) name version after (differs, none_before) found =
    rw differs (lib_version-first pattern before name version after none_before found)

-- It is unknown when there is none.
lib_version-unknown :
    (pattern : Text) (dependencies : List (Text × Text))
    → Without pattern dependencies
    → lib_version pattern dependencies ≡ codes "unknown"
unfolding lib_version find_version Without
lib_version-unknown pattern [] none_found = refl
lib_version-unknown pattern ((name, v) ∷ dependencies) (differs, none_found) =
    rw differs (lib_version-unknown pattern dependencies none_found)
