-- ===== src/Perf/Stats/Tests.antt =====
-- Measurements by hand, and the theorems about `Stats` at concrete inputs.
use nesquic.Prelude.{ℕ, refl, none, [], ◌∷◌, ◌/◌}
use nesquic.Perf.Stats.{
  Stats, Floats, start_measurement, add_bytes, get_last?, set_last, stop_measurement,
  calculate_throughput,
}
use nesquic.Perf.Stats.Laws.{IsCounted, Reach-IsCounted, Reach, next, here, starts, adds, stops}

-- Whole numbers in place of floats, with a division of zero where the divisor is zero.
abbrev whole : Floats
whole = record {
  Float = ℕ;
  of_ℕ = λ n. n;
  div = λ a b. a / b;
  as_secs_f64 = λ t. t / 1_000_000_000;
}

-- A measurement is started, started anew, and stopped.
abbrev measured : Stats
measured = record { deltas = 2_000_000_000 ∷ []; start = none; num_bytes = 0 ∷ 7_000_000 ∷ [] }

reach : Reach whole 1 measured
unfolding start_measurement add_bytes get_last? set_last stop_measurement calculate_throughput
reach =
    next (next (next (next here (starts 3)) (starts 5)) (adds 7_000_000 7_000_000 refl))
      (stops 2_000_000_005 2_000_000_000 3 refl)

Reach-IsCounted_example : IsCounted 1 measured
Reach-IsCounted_example = Reach-IsCounted reach
