-- ===== src/Metrics/Volumes/Recorded.antt =====
-- What the events leave in the map.
use nesquic.Prelude.{
  ℕ, ◌≡◌, List, [], ◌∷◌, ◌++◌, Option, none, some, refl, get_elem?, if◌then◌else◌, panic, ◌↔◌, ◌≤◌,
  Bool-cases, inl, ltb, sym, append-nil, get_elem?-below, inr, ltb→lt, ◌∙◌, ap, arith, append_assoc,
  get_elem?-beyond, All, Returns, ◌<◌, Returns-bind, Returns-map, ok,
}
use nesquic.Text.{Text, eq_text, eq_text_iff, eq_text_one}
use nesquic.Metrics.Volumes.{
  Volumes, EventIo, syscalls, push_volume, process_event, process, process_all, Status,
  not_an_event,
}

-- The volumes of a system call in the map: none, where the map has no entry.
unfoldable pub volumes_of : Text → Volumes → List ℕ
volumes_of t [] = []
volumes_of t ((key, vs) ∷ entries) =
    let rest = volumes_of t entries in if eq_text key t then vs else rest

-- The lengths of the events that are of a system call, in order.
abbrev pub of_syscall : Text → Option EventIo → List ℕ
of_syscall t none = []
of_syscall t (some e) = elim (get_elem? syscalls e.syscall) [
  | none ↦ []
  | some name ↦ if eq_text name t then e.len ∷ [] else []
]

unfoldable pub lengths_of : (List ℕ → Option EventIo) → Text → List (List ℕ) → List ℕ
lengths_of from_bytes t [] = []
lengths_of from_bytes t (ev ∷ evs) = of_syscall t (from_bytes ev) ++ lengths_of from_bytes t evs

volumes_of-push_volume :
    (t name : Text) (v : ℕ) (volumes : Volumes)
    → volumes_of t (push_volume name v volumes)
      ≡ volumes_of t volumes ++ (if eq_text name t then v ∷ [] else [])
unfolding volumes_of push_volume
volumes_of-push_volume t name v [] = refl
volumes_of-push_volume t name v ((key, vs) ∷ entries) = elim (Bool-cases (eq_text key name)) [
  | inl same ↦ rw same (
      rw⁻¹ ((eq_text_iff key name).0 same) (elim (Bool-cases (eq_text key t)) [
        | inl asked ↦ rw asked refl
        | inr another ↦ rw another (sym (append-nil _))
      ]))
  | inr differs ↦ rw differs (elim (Bool-cases (eq_text key t)) [
    | inl asked ↦ rw (asked, eq_text_one key name t differs asked) (sym (append-nil _))
    | inr another ↦ rw another (volumes_of-push_volume t name v entries)
  ])
]

-- An event whose system call is in the table, or what is not an event.
abbrev pub IsKnown : Option EventIo → Type 0
IsKnown none = Unit
IsKnown (some ev) = ev.syscall < 12

process_event-volumes_of :
    (t : Text) (ev : EventIo) (volumes : Volumes)
    → ev.syscall < 12
    → Returns
        (process_event ev volumes)
        (λ r. volumes_of t r.1 ≡ volumes_of t volumes ++ of_syscall t (some ev))
unfolding process_event syscalls
process_event-volumes_of t ev volumes known =
    let (name, found) = get_elem?-below syscalls ev.syscall known in
    rw found (volumes_of-push_volume t name ev.len volumes)

pub process-volumes_of :
    (t : Text) (from_bytes : List ℕ → Option EventIo) (ev : List ℕ) (volumes : Volumes)
    → IsKnown (from_bytes ev)
    → Returns
        (process from_bytes ev volumes)
        (λ r. volumes_of t r.1 ≡ volumes_of t volumes ++ of_syscall t (from_bytes ev))
unfolding process
process-volumes_of t from_bytes ev volumes =
    elim (from_bytes ev)
      as (λ (o : Option EventIo).
        IsKnown o
        → Returns (elim o [ none ↦ ok (not_an_event, volumes) | some e ↦ process_event e volumes ])
            (λ (r : Status × Volumes). volumes_of t r.1 ≡ volumes_of t volumes ++ of_syscall t o)) [
              | none ↦ λ _. sym (append-nil _)
              | some e ↦ process_event-volumes_of t e volumes
            ]

-- When the system calls of all the events that the ring buffer has delivered are in the table of
-- twelve, processing them does not panic, and afterwards the map has for each system call what it
-- had before and then the lengths of its events, in the order in which they came; what does not
-- decode leaves nothing.
process_all-lengths :
    (from_bytes : List ℕ → Option EventIo) (evs : List (List ℕ)) (volumes : Volumes) (t : Text)
    → All (λ ev. IsKnown (from_bytes ev)) evs
    → Returns
        (process_all from_bytes evs volumes)
        (λ volumes'. volumes_of t volumes' ≡ volumes_of t volumes ++ lengths_of from_bytes t evs)
unfolding process_all lengths_of
process_all-lengths from_bytes [] volumes t known = sym (append-nil _)
process_all-lengths from_bytes (ev ∷ evs) volumes t known =
    Returns-bind
      (λ (r : Status × Volumes).
        volumes_of t r.1 ≡ volumes_of t volumes ++ of_syscall t (from_bytes ev))
      (λ volumes'.
        volumes_of t volumes' ≡ volumes_of t volumes ++ lengths_of from_bytes t (ev ∷ evs))
      (process from_bytes ev volumes) (λ r. process_all from_bytes evs r.1)
      (process-volumes_of t from_bytes ev volumes known.0)
      (λ r one.
        Returns-map _ _ (process_all from_bytes evs r.1)
          (process_all-lengths from_bytes evs r.1 t known.1)
          (λ volumes' rest.
            rest
            ∙ ap (λ (vs : List ℕ). vs ++ lengths_of from_bytes t evs) one
            ∙ append_assoc (volumes_of t volumes) _ _))

-- An event panics exactly where its system call is beyond the table of twelve.
process_event-panic :
    (ev : EventIo) (volumes : Volumes) → (process_event ev volumes ≡ panic) ↔ (12 ≤ ev.syscall)
unfolding process_event syscalls
process_event-panic ev volumes = (
  λ h. elim (Bool-cases (ltb ev.syscall 12)) [
    | inl below ↦
        let (name, found) = get_elem?-below syscalls ev.syscall (ltb→lt ev.syscall 12 below) in
        cc (rw found at h)
    | inr beyond ↦ ground arith
  ],
  λ h. rw (get_elem?-beyond syscalls ev.syscall h) refl,
)
