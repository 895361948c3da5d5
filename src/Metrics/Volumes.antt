-- ===== src/Metrics/Volumes.antt =====
-- The statics of nesquic/src/metrics/mod.rs, and `process`, which fills them. The map of the volumes
-- is given by its entries, in the order in which it is iterated; the crate plain decodes an event.
pub mod Recorded
use nesquic.Text.{Text, codes, eq_text}
use nesquic.Prelude.{
  none, some, panic, ok, Outcome, ℕ, List, get_elem?, ◌∷◌, Option, [], if◌then◌else◌, ok, ◌++◌,
  ◌>>=◌,
}

unfoldable pub syscalls : List Text
syscalls =
    codes "write"
    ∷ codes "writev"
    ∷ codes "send"
    ∷ codes "sendto"
    ∷ codes "sendmsg"
    ∷ codes "sendmmsg"
    ∷ codes "read"
    ∷ codes "readv"
    ∷ codes "recv"
    ∷ codes "recvfrom"
    ∷ codes "recvmsg"
    ∷ codes "recvmmsg"
    ∷ []

abbrev pub Volumes : Type 0
Volumes = List (Text × List ℕ)

-- `types::event_io`, by the fields that are used.
pub record EventIo : Type 0 where
  pub syscall : ℕ
  pub len : ℕ

-- `entry(name).or_default().push(volume)`
unfoldable pub push_volume : Text → ℕ → Volumes → Volumes
push_volume name v [] = (name, v ∷ []) ∷ []
push_volume name v ((key, vs) ∷ entries) =
    let rest = push_volume name v entries in
    if eq_text key name then (key, vs ++ (v ∷ [])) ∷ entries else (key, vs) ∷ rest

-- What `process` returns: -1, or 0.
pub data Status : Type 0 where
  not_an_event : Status
  processed : Status

-- `SYSCALLS[ev.syscall as usize]` panics beyond the table.
unfoldable pub process_event : EventIo → Volumes → Outcome (Status × Volumes)
process_event ev volumes = elim (get_elem? syscalls ev.syscall) [
  | none ↦ panic
  | some name ↦ ok (processed, push_volume name ev.len volumes)
]

unfoldable pub process : (List ℕ → Option EventIo) → List ℕ → Volumes → Outcome (Status × Volumes)
process from_bytes ev volumes = elim (from_bytes ev) [
  | none ↦ ok (not_an_event, volumes)
  | some e ↦ process_event e volumes
]

-- The ring buffer hands the events to `process` one after the other.
unfoldable pub process_all : (List ℕ → Option EventIo) → List (List ℕ) → Volumes → Outcome Volumes
process_all from_bytes [] volumes = ok volumes
process_all from_bytes (ev ∷ evs) volumes = do
  r ← process from_bytes ev volumes
  process_all from_bytes evs r.1
