-- ===== src/Metrics/Tags/Order.antt =====
-- The text of the tags against the order of a map's iteration.
use mathlib.Core.List.Perm
use mathlib.Core.List.{Perm}
use nesquic.Metrics.Tags.{build_tag_str, tag_part, tag_text}
use nesquic.Prelude.{List, ℕ, ◌≡◌, ap}
use nesquic.Metrics.Sort.{sort-Perm}

-- The order in which the map of the tags is iterated does not show in the text.
pub build_tag_str-Perm :
    {tags tags' : List (List ℕ × List ℕ)}
    → Perm tags tags'
    → build_tag_str tags ≡ build_tag_str tags'
unfolding build_tag_str
build_tag_str-Perm p = ap tag_text (sort-Perm (Perm.filter_map tag_part p))
