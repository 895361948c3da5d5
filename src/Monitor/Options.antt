-- ===== src/Monitor/Options.antt =====
-- What nesquic/src/main.rs makes of the command line and the environment. A map of labels is given by
-- its entries.
use nesquic.Prelude.{
  ℕ, ◌∷◌, ◌>>=◌, List, Option, Outcome, [], err, ok, some, if◌then◌else◌, none, leb, length,
  get_elem?, panic,
}
use nesquic.Text.{Text, codes}
use nesquic.Labels.{parse_labels}
use nesquic.Metrics.Push.{Target, insert_tag}

pub record Cli : Type 0 where
  pub job : Option Text
  pub labels : Option (List Text)
  pub cpu : Option ℕ

abbrev pub unwrap_or_empty : Option (List Text) → List Text
unwrap_or_empty none = []
unwrap_or_empty (some hs) = hs

-- Inserting the entries one after the other.
unfoldable pub insert_all : List (Text × Text) → List (Text × Text) → List (Text × Text)
insert_all [] entries = entries
insert_all ((k, v) ∷ pairs) entries = insert_all pairs (insert_tag k v entries)

unfoldable pub labels : Text → Text → Cli → Outcome (List (Text × Text))
labels log_level version cli = do
  pairs ← parse_labels (unwrap_or_empty cli.labels)
  ok (
      insert_all (insert_all pairs [])
        (insert_tag (codes "version") version (insert_tag (codes "log_level") log_level [])))

unfoldable pub get_core_id {ℓ} : {CoreId : Type ℓ} → Option (List CoreId) → ℕ → Outcome CoreId
get_core_id none idx = err "Core not available"
get_core_id (some cores) idx =
    if leb (length cores) idx
    then err "Core not available"
    else elim (get_elem? cores idx) [ none ↦ panic | some core ↦ ok core ]

-- `map(get_core_id).transpose()?`
unfoldable pub core_of :
    {CoreId : Type 0} → Option (List CoreId) → Option ℕ → Outcome (Option CoreId)
core_of cores none = ok none
core_of cores (some idx) = do core ← get_core_id cores idx; ok (some core)

abbrev complete : Option Text → Option Text → Option Text → Option Text → Option Target
complete (some url) (some token) (some org) (some bucket) =
    some (record { url = url; token = token; org = org; bucket = bucket })
complete _ _ _ _ = none

-- Where the variables of InfluxDB are all set.
unfoldable pub target : (Text → Option Text) → Option Target
target var =
    complete (var (codes "INFLUX_URL")) (var (codes "INFLUX_TOKEN")) (var (codes "INFLUX_ORG"))
      (var (codes "INFLUX_BUCKET"))
