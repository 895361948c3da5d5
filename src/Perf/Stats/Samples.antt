-- ===== src/Perf/Stats/Samples.antt =====
-- The samples that `durations` and `throughputs` report.
use nesquic.Prelude.{
  ℕ, ◌+◌, ◌-◌, ◌^◌, ◌≡◌, refl, none, List, [], ◌∷◌, ◌++◌, ok, arith, Outcome, ◌>>=◌, ap, ◌<◌,
}
use nesquic.Perf.Stats.{
  Stats, new, is_measuring, get_last?, set_last, start_measurement, add_bytes, Floats,
  calculate_throughput, stop_measurement, durations, zip_throughputs, throughputs, false, length,
  some,
}
use nesquic.Perf.Stats.Laws.{IsAligned}
use mathlib.Core.List.{map-append}

get_last?-append : (xs : List ℕ) (v : ℕ) → get_last? (xs ++ (v ∷ [])) ≡ some v
unfolding get_last?
get_last?-append [] v = refl
get_last?-append (x ∷ []) v = refl
get_last?-append (x ∷ y ∷ ys) v = get_last?-append (y ∷ ys) v

set_last-append : (xs : List ℕ) (v w : ℕ) → set_last (xs ++ (v ∷ [])) w ≡ xs ++ (w ∷ [])
unfolding set_last
set_last-append [] v w = refl
set_last-append (x ∷ []) v w = refl
set_last-append (x ∷ y ∷ ys) v w = ap (λ t. x ∷ t) (set_last-append (y ∷ ys) v w)

module _ (floats : Floats) where
  zip_throughputs-append :
      (ts bs : List ℕ) (t b : ℕ)
      → length ts ≡ length bs
      → zip_throughputs floats (ts ++ (t ∷ [])) (bs ++ (b ∷ []))
        ≡ zip_throughputs floats ts bs ++ (calculate_throughput floats t b ∷ [])
  unfolding zip_throughputs
  zip_throughputs-append [] [] t b e = refl
  zip_throughputs-append [] (c ∷ bs) t b e = absurd (omega arith)
  zip_throughputs-append (u ∷ ts) [] t b e = absurd (omega arith)
  zip_throughputs-append (u ∷ ts) (c ∷ bs) t b e =
      ap (λ l. calculate_throughput floats u c ∷ l) (zip_throughputs-append ts bs t b (omega arith))

  -- One measurement as `run_client` makes it: from `begin` to `end`, over `n` bytes.
  unfoldable pub measure : ℕ → ℕ → ℕ → Stats → Outcome Stats
  measure begin end n s = do
    (running, total) ← add_bytes n (start_measurement begin s)
    (stopped, sample) ← stop_measurement floats end running
    ok stopped

  -- What one measurement leaves, whatever the statistics held.
  measured : ℕ → ℕ → ℕ → Stats → Stats
  measured begin end n s = record s {
    deltas = s.deltas ++ ((end - begin) ∷ []);
    start = none;
    num_bytes = s.num_bytes ++ (n ∷ []);
  }

  measure_lem :
      (s : Stats) (begin end n : ℕ)
      → n < 2 ^ 64
      → measure begin end n s ≡ ok (measured begin end n s)
  unfolding measure measured start_measurement add_bytes stop_measurement
  measure_lem s begin end n fits = ground (
    arith,
    get_last?-append s.num_bytes 0,
    set_last-append s.num_bytes 0 (0 + n),
    get_last?-append s.num_bytes (0 + n),
  )

  -- From aligned statistics with no measurement running, one measurement adds one sample, of its own
  -- duration and bytes, and keeps the earlier samples.
  samples-measure :
      (s : Stats) (begin end n : ℕ)
      → IsAligned s
      → is_measuring s ≡ false
      → n < 2 ^ 64
      → (u : Stats) × (measure begin end n s ≡ ok u)
        × (durations floats u ≡ durations floats s ++ (floats.as_secs_f64 (end - begin) ∷ []))
        × (throughputs floats u
            ≡ throughputs floats s ++ (calculate_throughput floats (end - begin) n ∷ []))
  unfolding measured is_measuring durations throughputs
  samples-measure s begin end n aligned idle fits = (
    measured begin end n s,
    measure_lem s begin end n fits,
    map-append floats.as_secs_f64 s.deltas ((end - begin) ∷ []),
    zip_throughputs-append s.deltas s.num_bytes (end - begin) n (ground arith),
  )

  -- A second `start_measurement` before `stop_measurement` leaves a byte count of zero behind, and
  -- the sample then pairs the measured time with that count instead of with the bytes.
  throughputs-start_twice :
      (first begin end n : ℕ)
      → n < 2 ^ 64
      → (u : Stats) × (measure begin end n (start_measurement first new) ≡ ok u)
        × (throughputs floats u ≡ calculate_throughput floats (end - begin) 0 ∷ [])
  unfolding measured start_measurement throughputs
  throughputs-start_twice first begin end n fits = (
    measured begin end n (start_measurement first new),
    measure_lem (start_measurement first new) begin end n fits,
    refl,
  )
