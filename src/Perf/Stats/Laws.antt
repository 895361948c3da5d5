-- ===== src/Perf/Stats/Laws.antt =====
-- The measurements and the byte counts of `Stats` stay in step.
use nesquic.Prelude.{
  ℕ, ◌+◌, ◌-◌, ◌≡◌, true, false, Option, none, some, List, [], ◌∷◌, ok, err, arith, length-append,
  ap, refl, Option-cases, inl, ◌⊎◌, inr, ◌++◌, sym, ok-injective,
}
use nesquic.Perf.Stats.{
  Stats, new, is_measuring, get_last?, set_last, start_measurement, add_bytes, Floats,
  stop_measurement, length, suc, len, calculate_throughput,
}

-- Whether the last byte count belongs to a measurement that is still running.
abbrev running : Option ℕ → ℕ
running none = 0
running (some t) = 1

-- There is a byte count for each measurement, the running one included.
abbrev pub IsAligned : Stats → Type 0
IsAligned s = length s.num_bytes ≡ length s.deltas + running s.start

-- There is one more for each measurement that was started anew before it was stopped.
abbrev pub IsCounted : ℕ → Stats → Type 0
IsCounted restarts s = length s.num_bytes ≡ length s.deltas + running s.start + restarts

length-set_last : (xs : List ℕ) (v : ℕ) → length (set_last xs v) ≡ length xs
unfolding set_last
length-set_last [] v = refl
length-set_last (x ∷ []) v = refl
length-set_last (x ∷ y ∷ ys) v = ap suc (length-set_last (y ∷ ys) v)

pub get_last?-eq_none : (xs : List ℕ) → get_last? xs ≡ none → length xs ≡ 0
unfolding get_last?
get_last?-eq_none [] e = refl
get_last?-eq_none (x ∷ []) e = cc
get_last?-eq_none (x ∷ y ∷ ys) e = absurd (omega (arith, get_last?-eq_none (y ∷ ys) e))

-- A call of a method, and how many running measurements it starts anew.
pub data Step (floats : Floats) : Stats → ℕ → Stats → Type 0 where
  starts : {s : Stats} (now : ℕ) → Step floats s (running s.start) (start_measurement now s)
  adds : {s u : Stats} (n v : ℕ) → add_bytes n s ≡ ok (u, v) → Step floats s 0 u
  stops :
      {s u : Stats} (now t : ℕ) (throughput : floats.Float)
      → stop_measurement floats now s ≡ ok (u, (t, throughput))
      → Step floats s 0 u

-- The states that the methods lead to in any order, with the number of the measurements that were
-- started anew.
pub data Reach (floats : Floats) : ℕ → Stats → Type 0 where
  here : Reach floats 0 new
  next :
      {restarts n : ℕ} {s u : Stats}
      → Reach floats restarts s
      → Step floats s n u
      → Reach floats (n + restarts) u

module _ (floats : Floats) where
  -- What a successful `stop_measurement` leaves.
  stop_measurement-ok :
      (now : ℕ) (s : Stats) (r : Stats × (ℕ × floats.Float))
      → stop_measurement floats now s ≡ ok r
      → (start : ℕ) × (s.start ≡ some start)
        × (r.0 ≡ record s { deltas = s.deltas ++ ((now - start) ∷ []); start = none })
  unfolding stop_measurement
  stop_measurement-ok now s r e = elim (Option-cases s.start) [
    | inl off ↦ cc (rw off at e)
    | inr (start, on) ↦ elim (Option-cases (get_last? s.num_bytes)) [
      | inl empty ↦ cc (rw (on, empty, stop_measurement) at e)
      | inr (b, last) ↦ (
        start,
        on,
        ap (λ (p : Stats × (ℕ × floats.Float)). p.0)
            (sym (ok-injective (rw (on, last, stop_measurement) at e))),
      )
    ]
  ]

Step-IsCounted :
    {floats : Floats} {s u : Stats} {n : ℕ} (restarts : ℕ)
    → Step floats s n u
    → IsCounted restarts s
    → IsCounted (n + restarts) u
unfolding start_measurement add_bytes
Step-IsCounted {s = s} restarts (starts now) h =
    omega (arith, length-append s.num_bytes (0 ∷ []), h)
Step-IsCounted {s = s} restarts (adds n v e) h = grind (arith, length-set_last)
Step-IsCounted {floats = floats} {s = s} restarts (stops now t throughput e) h =
    let (begin, on, left) = stop_measurement-ok floats now s _ e in
    ground (arith, length-append s.deltas ((now - begin) ∷ []))

-- In every state that the methods of `Stats` lead to from a new one, in any order, there are as many
-- byte counts as measurements, counting a running one, and one more for each measurement that was
-- started anew while it ran.
pub Reach-IsCounted :
    {floats : Floats} {restarts : ℕ} {s : Stats} → Reach floats restarts s → IsCounted restarts s
Reach-IsCounted here = omega arith
Reach-IsCounted (next {restarts} r step) = Step-IsCounted restarts step (Reach-IsCounted r)

-- A running measurement has a byte count.
get_last?-running :
    (restarts : ℕ) (s : Stats) (t : ℕ)
    → IsCounted restarts s
    → s.start ≡ some t
    → (b : ℕ) × (get_last? s.num_bytes ≡ some b)
get_last?-running restarts s t counted on = elim (Option-cases (get_last? s.num_bytes)) [
  | inl e ↦ absurd (ground (arith, get_last?-eq_none s.num_bytes e))
  | inr found ↦ found
]

module _ (floats : Floats) where
  -- What `stop_measurement` does: it ends a running measurement and records it, or it returns an
  -- error.
  abbrev pub StopsWell : ℕ → Stats → Type 0
  StopsWell now s =
      (is_measuring s ≡ false)
        × (stop_measurement floats now s ≡ err "haven't started a measurement yet.")
      ⊎ ((u : Stats) × (t : ℕ) × (throughput : floats.Float) × (stop_measurement floats now s
            ≡ ok (u, (t, throughput)))
          × (is_measuring s ≡ true)
          × (is_measuring u ≡ false)
          × (len u ≡ len s + 1)
          × (u.num_bytes ≡ s.num_bytes))

  -- In a state that the methods lead to, `stop_measurement` never panics: it ends a running
  -- measurement, records it and keeps the byte counts, or no measurement runs and it returns an
  -- error.
  stop_measurement-total :
      {restarts : ℕ} {s : Stats} (now : ℕ) → Reach floats restarts s → StopsWell now s
  unfolding stop_measurement is_measuring len
  stop_measurement-total {restarts} {s} now r = elim (Option-cases s.start) [
    | inl off ↦ inl (ground arith, ground arith)
    | inr (start, on) ↦
        let (b, last) = get_last?-running restarts s start (Reach-IsCounted r) on in
        inr (
          record s { deltas = s.deltas ++ ((now - start) ∷ []); start = none },
          now - start,
          calculate_throughput floats (now - start) b,
          ground arith,
          ground arith,
          refl,
          length-append s.deltas ((now - start) ∷ []),
          refl,
        )
  ]
