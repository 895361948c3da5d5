-- ===== src/Metrics/Probes/Tests.antt =====
-- Runs of the programs, and of the collector beside them, on small inputs.
use nesquic.Prelude.{
  ℕ, List, [], ◌∷◌, ◌++◌, Option, some, none, ◌≡◌, refl, ◌*◌, ◌^◌, arith, ◌+◌, ◌<◌, length, zero,
  suc,
}
use nesquic.Text.{codes, eq_text}
use nesquic.Metrics.Volumes.{EventIo, Volumes, process, process_event, syscalls, push_volume}
use nesquic.Metrics.Lines.{Numbers, collect_line_protocol}
use nesquic.Metrics.Probes.{
  Kernel, Iovec, Msghdr, run, body, pid_guard, submit_event_io, submit_event, after_reserve,
  after_write, write, sendto, sendmsg, sendmmsg, u32,
}
use nesquic.Metrics.Probes.Submitted.{IsKernel, Submits, name, run-Submits}
use nesquic.Metrics.Probes.Counts.{
  sum, sum_all, IsVector, IsMessage, IsMessages, sendmsg-times, sendmmsg-sum,
}
use nesquic.Metrics.Pipeline.{System, Reach, start, traces, polls, drains}
use nesquic.Metrics.Pipeline.Conserved.{IsConserved, Reach-IsConserved}

-- The ring buffer and the dynptr.
abbrev Memory : Type 0
Memory = List EventIo × Option EventIo

submitted : Memory → Memory
submitted (events, some event) = (events ++ (event ∷ []), none)
submitted (events, none) = (events, none)

-- A vector with buffers of 3 and 4 bytes.
iovec_at : ℕ → Option Iovec
iovec_at zero = some (record { iov_len = 3 })
iovec_at (suc zero) = some (record { iov_len = 4 })
iovec_at (suc (suc i)) = none

-- In process 7, with the message of these two buffers at any pointer.
abbrev memory : Kernel
memory = record {
  World = Memory;
  pid_tgid = λ w. 7 * 2 ^ 32;
  read_iovec = λ vec i w. iovec_at i;
  read_user_msghdr = λ ptr w. some (record { msg_iov = 9; msg_iovlen = 2 });
  read_mmsghdr = λ ptr j w. some (record { msg_iov = 9; msg_iovlen = 2 });
  iterations = λ end. end;
  reserve = λ w. (some tt, w);
  write_event = λ event w. (some tt, (w.0, some event));
  discard = λ w. w;
  submit = submitted;
}

submitted_law :
    (event : EventIo) (w : Memory) → w.1 ≡ some event → (submitted w).0 ≡ w.0 ++ (event ∷ [])
unfolding submitted
submitted_law event (events, some e) h = cc
submitted_law event (events, none) h = cc

abbrev memory_laws : IsKernel memory
memory_laws = record {
  buffer = λ w. w.0;
  pending = λ w. w.1;
  reserve_law = λ w. refl;
  write_buffer = λ event w. refl;
  write_pending = λ event w h. refl;
  discard_law = λ w. refl;
  submit_law = submitted_law;
  iterations_law = λ end h. refl;
}

abbrev args : ℕ → ℕ
args i = 2

run-Submits_example :
    Submits memory_laws 7 (codes "sendto") ([], none) (run memory 7 sendto args ([], none))
unfolding name
run-Submits_example = run-Submits memory_laws 7 sendto args ([], none)

abbrev header : Msghdr
header = record { msg_iov = 9; msg_iovlen = 2 }

abbrev lens : List ℕ
lens = 3 ∷ 4 ∷ []

both : IsMessage memory_laws 7 header lens ([], none)
unfolding IsVector iovec_at
both = record { buffers = (refl, (refl, tt)); counted = refl; few = omega arith }

sendmsg-times_example :
    run memory 7 sendmsg args ([], none)
    ≡ submit_event memory 7 (record { syscall = 4; len = u32 (length lens * sum lens) }) ([], none)
sendmsg-times_example = sendmsg-times memory_laws 7 args header lens ([], none) refl refl both

-- A message of 7 bytes is counted as one of 14.
sendmsg_run : run memory 7 sendmsg args ([], none) ≡ ((record { syscall = 4; len = 14 }) ∷ [], none)
unfolding submit_event after_reserve after_write submitted sum
sendmsg_run = sendmsg-times_example

abbrev messages : List (List ℕ)
messages = lens ∷ lens ∷ []

sendmmsg-sum_example :
    run memory 7 sendmmsg args ([], none)
    ≡ submit_event memory 7 (record { syscall = 5; len = u32 (sum_all messages) }) ([], none)
unfolding IsMessages
sendmmsg-sum_example =
    sendmmsg-sum memory_laws 7 args messages ([], none) refl refl (omega arith)
      ((header, refl, both), ((header, refl, both), tt))

abbrev plain : Numbers
plain = record {
  Float = ℕ;
  sum = sum;
  divide = ◌+◌;
  of_ℕ = λ k. k;
  show = λ x. x ∷ [];
  show_ℕ = λ k. k ∷ [];
  show_rounded = λ x. x ∷ [];
  add = λ a b. some (a + b);
  in_kb = λ b. b;
}

abbrev as_bytes : EventIo → List ℕ
as_bytes e = e.syscall ∷ e.len ∷ []

from_bytes : List ℕ → Option EventIo
from_bytes (syscall ∷ (len ∷ [])) = some (record { syscall = syscall; len = len })
from_bytes [] = none
from_bytes (syscall ∷ []) = none
from_bytes (syscall ∷ (len ∷ (b ∷ bs))) = none

decodes :
    (event : EventIo)
    → event.syscall < 2 ^ 16
    → event.len < 2 ^ 32
    → from_bytes (as_bytes event) ≡ some event
unfolding from_bytes
decodes event small fits = refl

abbrev event : EventIo
event = record { syscall = 0; len = 2 }

abbrev fresh : System memory plain
fresh = record {
  world = ([], none);
  statics = record { throughput_samples = []; syscall_volumes = [] };
  drained = [];
}

abbrev counted : Volumes
counted = (codes "write", 2 ∷ []) ∷ []

-- One event of `write` is polled and drained, and another is in the ring buffer.
abbrev later : System memory plain
later = record {
  world = (event ∷ [], none);
  statics = record { throughput_samples = []; syscall_volumes = [] };
  drained = counted ∷ [];
}

abbrev ran : Memory
ran = run memory 7 write args ([], none)

reached_first :
    Reach memory_laws 7 plain as_bytes from_bytes (record fresh { world = ran }) (event ∷ [])
unfolding run pid_guard body submit_event_io submit_event after_reserve after_write submitted
reached_first = traces (event ∷ []) (start {world = ([], none)} refl refl) write args refl

abbrev polled : System memory plain
polled = record fresh { statics = record { throughput_samples = []; syscall_volumes = counted } }

reached_polled : Reach memory_laws 7 plain as_bytes from_bytes polled (event ∷ [])
unfolding run pid_guard body submit_event_io submit_event after_reserve after_write submitted
    from_bytes process process_event syscalls push_volume eq_text
reached_polled = polls reached_first refl refl refl

reached_later : Reach memory_laws 7 plain as_bytes from_bytes later (event ∷ event ∷ [])
unfolding run pid_guard body submit_event_io submit_event after_reserve after_write submitted
    collect_line_protocol
reached_later = traces (event ∷ []) (drains reached_polled [] 9) write args refl

Reach-IsConserved_example :
    IsConserved memory_laws 7 plain as_bytes from_bytes decodes later (event ∷ event ∷ [])
Reach-IsConserved_example =
    Reach-IsConserved memory_laws 7 plain as_bytes from_bytes decodes later (event ∷ event ∷ [])
      reached_later
