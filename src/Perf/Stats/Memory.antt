-- ===== src/Perf/Stats/Memory.antt =====
-- Floats of which nothing is kept.
use nesquic.Perf.Stats.{Floats}

abbrev pub no_floats : Floats
no_floats = record { Float = Unit {0}; of_ℕ = λ n. tt; div = λ a b. tt; as_secs_f64 = λ t. tt }
