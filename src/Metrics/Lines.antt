-- ===== src/Metrics/Lines.antt =====
-- `collect_line_protocol` of nesquic/src/metrics/mod.rs. The floats, the printing of numbers and the
-- checked addition of byte_unit are parameters; a `Byte` is given by its number of bytes.
use nesquic.Prelude.{
  ℕ, List, Option, Outcome, err, length, ok, panic, ◌++◌, ◌>>=◌, ◌∷◌, [], some, none,
}
use nesquic.Text.{Text, codes}
use nesquic.Metrics.Volumes.{Volumes}
use nesquic.Metrics.Tags.{join}

pub record Numbers : Type 1 where
  pub Float : Type 0
  pub sum : List Float → Float
  pub divide : Float → Float → Float
  pub of_ℕ : ℕ → Float
  pub show : Float → Text
  pub show_ℕ : ℕ → Text
  -- With `{:.3}`.
  pub show_rounded : Float → Text
  pub add : ℕ → ℕ → Option ℕ
  pub in_kb : ℕ → Float

module _ (n : Numbers) where
  open n use {Float, sum, divide, of_ℕ, show, show_ℕ, add, in_kb}

  -- The statics of the module.
  pub record Statics : Type 0 where
    pub throughput_samples : List Float
    pub syscall_volumes : Volumes

  pub mean : List Float → Float
  mean samples = divide (sum samples) (of_ℕ (length samples))

  abbrev throughput_line : Text → ℕ → List Float → Text
  throughput_line tag_str timestamp samples =
      codes "nesquic"
      ++ (tag_str
          ++ (codes " throughput=" ++ (show (mean samples) ++ (codes " " ++ show_ℕ timestamp))))

  throughput_lines : Text → ℕ → List Float → List Text
  unfolding mean
  throughput_lines tag_str timestamp [] = []
  throughput_lines tag_str timestamp (x ∷ samples) =
      throughput_line tag_str timestamp (x ∷ samples) ∷ []

  -- `acc.add(*v).unwrap()`
  abbrev unwrap : Option ℕ → Outcome ℕ
  unwrap none = panic
  unwrap (some v) = ok v

  unfoldable pub sum_from : ℕ → List ℕ → Outcome ℕ
  sum_from acc [] = ok acc
  sum_from acc (v ∷ vs) = do acc' ← unwrap (add acc v); sum_from acc' vs

  io_line : Text → ℕ → Text → List ℕ → ℕ → Text
  io_line tag_str timestamp syscall vs total =
      codes "nesquic_io"
      ++ (tag_str
          ++ (codes ",syscall="
              ++ (syscall
                  ++ (codes " volume_kb_sum="
                      ++ (show (in_kb total)
                          ++ (codes ",count="
                              ++ (show_ℕ (length vs) ++ (codes "i " ++ show_ℕ timestamp))))))))

  unfoldable pub io_lines : Text → ℕ → Volumes → Outcome (List Text)
  unfolding io_line
  io_lines tag_str timestamp [] = ok []
  io_lines tag_str timestamp ((syscall, vs) ∷ volumes) = do
    total ← sum_from 0 vs
    lines ← io_lines tag_str timestamp volumes
    ok (io_line tag_str timestamp syscall vs total ∷ lines)

  abbrev joined : List Text → Outcome Text
  joined [] = err "No metrics to push"
  joined (line ∷ lines) = ok (join 10 (line ∷ lines))

  -- `volumes.drain()` empties the map however its loop ends.
  unfoldable pub collect_line_protocol : Text → ℕ → Statics → Outcome Text × Statics
  unfolding throughput_lines
  collect_line_protocol tag_str timestamp statics = (
    do
      lines ← io_lines tag_str timestamp statics.syscall_volumes
      joined (throughput_lines tag_str timestamp statics.throughput_samples ++ lines),
    record { throughput_samples = statics.throughput_samples; syscall_volumes = [] },
  )
