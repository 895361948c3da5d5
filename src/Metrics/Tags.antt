-- ===== src/Metrics/Tags.antt =====
-- The tags of a point. A text is the list of its code points.
pub mod Escapes
pub mod Order
use mathlib.Core.List.{filter_map}
use nesquic.Prelude.{ℕ, List, ◌∷◌, if◌then◌else◌, ◌==◌, [], Option, ◌++◌, none, some}
use nesquic.Metrics.Sort.{sort}

abbrev pub backslash : ℕ
backslash = 92

abbrev pub comma : ℕ
comma = 44

abbrev pub equals_sign : ℕ
equals_sign = 61

abbrev pub space : ℕ
space = 32

-- `replace(c, "\\c")`
unfoldable pub replace : ℕ → List ℕ → List ℕ
replace c [] = []
replace c (x ∷ xs) = let rest = replace c xs in if x == c then backslash ∷ c ∷ rest else x ∷ rest

unfoldable pub escape_tag : List ℕ → List ℕ
unfolding replace
escape_tag s = replace space (replace equals_sign (replace comma s))

-- `format!("{}={}", …)` for a tag whose value is not empty.
abbrev unless_empty : List ℕ → List ℕ → Option (List ℕ)
unless_empty part [] = none
unless_empty part (x ∷ value) = some part

tag_part : List ℕ × List ℕ → Option (List ℕ)
tag_part (k, v) = unless_empty (escape_tag k ++ (equals_sign ∷ escape_tag v)) v

-- `parts.join(…)` with one character.
pub join : ℕ → List (List ℕ) → List ℕ
join sep [] = []
join sep (part ∷ []) = part
join sep (part ∷ other ∷ parts) = part ++ (sep ∷ join sep (other ∷ parts))

tag_text : List (List ℕ) → List ℕ
unfolding join
tag_text [] = []
tag_text (part ∷ parts) = comma ∷ join comma (part ∷ parts)

-- The map of the tags is given by its entries, in the order in which it is iterated.
unfoldable pub build_tag_str : List (List ℕ × List ℕ) → List ℕ
unfolding tag_part tag_text
build_tag_str tags = tag_text (sort (filter_map tag_part tags))
