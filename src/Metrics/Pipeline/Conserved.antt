-- ===== src/Metrics/Pipeline/Conserved.antt =====
-- That no event is lost or counted twice between the programs and the push.
use mathlib.Core.Path.{subst}
use nesquic.Prelude.{
  ℕ, List, [], ◌∷◌, ◌++◌, Option, some, ok, ◌≡◌, ◌∙◌, ap, sym, refl, ◌<◌, ◌^◌, All, All-snoc,
  append-nil, append_assoc, Returns, arith, Outcome, get_elem?-below,
}
use nesquic.Text.{Text}
use nesquic.Metrics.Volumes.{EventIo, Volumes, process, processed, syscalls, process_event}
use nesquic.Metrics.Volumes.Recorded.{volumes_of, of_syscall, process-volumes_of, IsKnown}
use nesquic.Metrics.Lines.{Numbers, collect_line_protocol}
use nesquic.Metrics.Probes.{Kernel}
use nesquic.Metrics.Probes.Submitted.{IsKernel, run-Submits, nothing, one, name, Submits}
use nesquic.Metrics.Pipeline.{System, Reach, start, traces, passes, polls, drains}

-- The lengths of the events of a system call, in order.
unfoldable pub lengths : Text → List EventIo → List ℕ
lengths t [] = []
lengths t (event ∷ events) = of_syscall t (some event) ++ lengths t events

-- What was taken out of the map for it.
unfoldable pub drained_of : Text → List Volumes → List ℕ
drained_of t [] = []
drained_of t (volumes ∷ rest) = volumes_of t volumes ++ drained_of t rest

lengths-append :
    (t : Text) (xs ys : List EventIo) → lengths t (xs ++ ys) ≡ lengths t xs ++ lengths t ys
unfolding lengths
lengths-append t [] ys = refl
lengths-append t (x ∷ xs) ys =
    ap (λ ns. of_syscall t (some x) ++ ns) (lengths-append t xs ys)
    ∙ sym (append_assoc (of_syscall t (some x)) (lengths t xs) (lengths t ys))

drained_of-snoc :
    (t : Text) (xs : List Volumes) (x : Volumes)
    → drained_of t (xs ++ (x ∷ [])) ≡ drained_of t xs ++ volumes_of t x
unfolding drained_of
drained_of-snoc t [] x = append-nil _
drained_of-snoc t (y ∷ xs) x =
    ap (λ ns. volumes_of t y ++ ns) (drained_of-snoc t xs x)
    ∙ sym (append_assoc (volumes_of t y) (drained_of t xs) (volumes_of t x))

append_behind : (p v l m : List ℕ) → p ++ (v ++ (l ++ m)) ≡ (p ++ (v ++ l)) ++ m
append_behind p v l m =
    ap (λ ns. p ++ ns) (sym (append_assoc v l m)) ∙ sym (append_assoc p (v ++ l) m)

-- An event that the collector knows, and that fits its fields.
pub record IsWhole (event : EventIo) : Type 0 where
  pub known : event.syscall < 12
  pub fits : event.len < 2 ^ 32

module _ {kernel : Kernel} (laws : IsKernel kernel) (monitored_pid : ℕ) (n : Numbers)
    (as_bytes : EventIo → List ℕ) (from_bytes : List ℕ → Option EventIo)
    (decodes : (event : EventIo)
      → event.syscall < 2 ^ 16
      → event.len < 2 ^ 32
      → from_bytes (as_bytes event) ≡ some event) where
  open kernel use {World}
  open laws use {buffer}

  pub record IsConserved (s : System kernel n) (history : List EventIo) : Type 0 where
    pub whole : All IsWhole (buffer s.world)
    pub conserved :
        (t : Text)
        → drained_of t s.drained
            ++ (volumes_of t s.statics.syscall_volumes ++ lengths t (buffer s.world))
          ≡ lengths t history

  Submits-whole :
      (t : Text) (w w' : World)
      → Submits laws monitored_pid t w w'
      → All IsWhole (buffer w)
      → All IsWhole (buffer w')
  Submits-whole t w w' (nothing same) h = rw same h
  Submits-whole t w w' (one event e same) h =
      rw same (All-snoc (buffer w) IsWhole (record { known = e.known; fits = e.fits }) h)

  process_whole :
      (t : Text) (event : EventIo) (volumes : Volumes)
      → IsWhole event
      → Returns
          (process from_bytes (as_bytes event) volumes)
          (λ r. volumes_of t r.1 ≡ volumes_of t volumes ++ of_syscall t (some event))
  process_whole t event volumes h =
      let same = decodes event (omega (arith, h.known)) h.fits in
      let known : IsKnown (from_bytes (as_bytes event)) = rw same h.known in
      subst
        (λ o.
          Returns (process from_bytes (as_bytes event) volumes)
            (λ r. volumes_of t r.1 ≡ volumes_of t volumes ++ of_syscall t o))
        same (process-volumes_of t from_bytes (as_bytes event) volumes known)

  returned : {A : Type 0} (P : A → Type 0) (m : Outcome A) (a : A) → m ≡ ok a → Returns m P → P a
  returned P m a e h = rw e at h

  -- In every state that is reached, whatever the order of the system calls, the polls and the draining
  -- of the map by pushes: the events in the ring buffer are known to the collector, and for each
  -- system call, the lengths of the events that were submitted are, in order, those that were drained
  -- from the map, whether or not the push then succeeded, those in the map, and those in the ring
  -- buffer.
  pub Reach-IsConserved :
      (s : System kernel n) (history : List EventIo)
      → Reach laws monitored_pid n as_bytes from_bytes s history
      → IsConserved s history
  unfolding drained_of lengths volumes_of collect_line_protocol
  Reach-IsConserved s history (start empty fresh) = record {
    whole = rw empty tt;
    conserved = λ t. rw (empty, fresh) refl;
  }
  Reach-IsConserved s' history' (traces {s} {history} new r program args same) =
      let h = Reach-IsConserved s history r in
      record {
        whole =
            Submits-whole (name program) s.world _
              (run-Submits laws monitored_pid program args s.world) h.whole;
        conserved = λ t.
            rw (same, lengths-append t (buffer s.world) new, lengths-append t history new)
              (append_behind (drained_of t s.drained) (volumes_of t s.statics.syscall_volumes)
                  (lengths t (buffer s.world)) (lengths t new)
                ∙ ap (λ ns. ns ++ lengths t new) (h.conserved t));
      }
  Reach-IsConserved s' history (passes {s} {world = world} r same) =
      let h = Reach-IsConserved s history r in
      record { whole = rw same h.whole; conserved = λ t. rw same (h.conserved t) }
  Reach-IsConserved s' history
        (polls {s} {rest = rest} {event = event} {world = world} {volumes = volumes} r first left
          done) =
      let h = Reach-IsConserved s history r in
      let whole : All IsWhole (event ∷ rest) = rw first at (h.whole) in
      record {
        whole = rw left whole.1;
        conserved = λ t.
            let one_more =
              returned _ (process from_bytes (as_bytes event) s.statics.syscall_volumes) _ done
                (process_whole t event s.statics.syscall_volumes whole.0) in
            let before = h.conserved t in
            rw
              (
                left,
                one_more,
                append_assoc (volumes_of t s.statics.syscall_volumes) (of_syscall t (some event))
                    (lengths t rest),
              )
              (rw first at before);
      }
  Reach-IsConserved s' history (drains {s} r tag_str timestamp) =
      let h = Reach-IsConserved s history r in
      record {
        whole = h.whole;
        conserved = λ t. rw (drained_of-snoc t s.drained s.statics.syscall_volumes) (
            append_assoc (drained_of t s.drained) (volumes_of t s.statics.syscall_volumes)
              (lengths t (buffer s.world))
            ∙ h.conserved t);
      }

  -- In every state that is reached, polling the first event in the ring buffer neither panics nor
  -- discards it.
  Reach-processed :
      (s : System kernel n) (history : List EventIo) (event : EventIo) (rest : List EventIo)
      → Reach laws monitored_pid n as_bytes from_bytes s history
      → buffer s.world ≡ event ∷ rest
      → Returns
          (process from_bytes (as_bytes event) s.statics.syscall_volumes)
          (λ r. r.0 ≡ processed)
  unfolding process process_event syscalls
  Reach-processed s history event rest r first =
      let whole = (Reach-IsConserved s history r).whole in
      let h : All IsWhole (event ∷ rest) = rw first at whole in
      let (name, found) = get_elem?-below syscalls event.syscall h.0.known in
      rw (process, decodes event (omega (arith, h.0.known)) h.0.fits, process_event, found) refl
