-- ===== src/Perf/Stats.antt =====
-- `Stats` of utils/src/perf.rs. `Duration` and `Instant` are nanoseconds. A method takes the time
-- that `Instant::now()` returns. The floats are a parameter.
pub mod Laws
pub mod Samples
pub mod Memory
mod Tests
use nesquic.Prelude.{
  ℕ, zero, suc, ◌+◌, ◌-◌, ◌^◌, Bool, true, false, Option, none, some, List, [], ◌∷◌, ◌++◌, Outcome,
  ok, err, panic, ltb, if◌then◌else◌, length, map, String,
}

pub record Stats : Type 0 where
  pub deltas : List ℕ
  pub start : Option ℕ
  pub num_bytes : List ℕ

abbrev pub new : Stats
new = record { deltas = []; start = none; num_bytes = [] }

unfoldable pub is_measuring : Stats → Bool
is_measuring s = elim s.start [ none ↦ false | some t ↦ true ]

unfoldable pub len : Stats → ℕ
len s = length s.deltas

unfoldable pub start_measurement : ℕ → Stats → Stats
start_measurement now s = record s { start = some now; num_bytes = s.num_bytes ++ (0 ∷ []) }

not_started : String
not_started = "haven't started a measurement yet."

unfoldable pub get_last? : List ℕ → Option ℕ
get_last? [] = none
get_last? (x ∷ []) = some x
get_last? (x ∷ y ∷ ys) = get_last? (y ∷ ys)

-- `*last_mut() = v`
unfoldable pub set_last : List ℕ → ℕ → List ℕ
set_last [] v = []
set_last (x ∷ []) v = v ∷ []
set_last (x ∷ y ∷ ys) v = x ∷ set_last (y ∷ ys) v

-- A sum beyond usize panics, as the debug profile checks it.
unfoldable pub add_bytes : ℕ → Stats → Outcome (Stats × ℕ)
unfolding not_started
add_bytes n s = elim (get_last? s.num_bytes) [
  | none ↦ err not_started
  | some val ↦
      if ltb (val + n) (2 ^ 64)
      then ok (record s { num_bytes = set_last s.num_bytes (val + n) }, val + n)
      else panic
]

-- What the statistics use of f64: `n as f64`, division, and `Duration::as_secs_f64`.
pub record Floats : Type 1 where
  pub Float : Type 0
  pub of_ℕ : ℕ → Float
  pub div : Float → Float → Float
  pub as_secs_f64 : ℕ → Float

module _ (floats : Floats) where
  open floats use {Float, of_ℕ, div, as_secs_f64}

  unfoldable pub calculate_throughput : ℕ → ℕ → Float
  calculate_throughput t b = div (div (of_ℕ b) (of_ℕ 1_000_000)) (as_secs_f64 t)

  -- `Instant - Instant` stops at zero, as ℕ's subtraction does.
  unfoldable pub stop_measurement : ℕ → Stats → Outcome (Stats × (ℕ × Float))
  unfolding not_started
  stop_measurement now s = elim s.start [
    | none ↦ err not_started
    | some start ↦ elim (get_last? s.num_bytes) [
      | none ↦ panic
      | some b ↦
          let t = now - start in
          ok (
            record s { deltas = s.deltas ++ (t ∷ []); start = none },
            (t, calculate_throughput t b),
          )
    ]
  ]

  -- The samples whose mean and error `durations` and `throughputs` return.
  unfoldable pub durations : Stats → List Float
  durations s = map as_secs_f64 s.deltas

  zip_throughputs : List ℕ → List ℕ → List Float
  zip_throughputs [] bs = []
  zip_throughputs (t ∷ ts) [] = []
  zip_throughputs (t ∷ ts) (b ∷ bs) = calculate_throughput t b ∷ zip_throughputs ts bs

  unfoldable pub throughputs : Stats → List Float
  unfolding zip_throughputs
  throughputs s = zip_throughputs s.deltas s.num_bytes
