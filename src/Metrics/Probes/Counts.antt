-- ===== src/Metrics/Probes/Counts.antt =====
-- How many bytes the programs count.
use nesquic.Prelude.{
  ℕ, zero, suc, ◌+◌, ◌*◌, ◌^◌, ◌<◌, ◌≤◌, ◌/◌, ==_iff, ◌≡◌, ◌∙◌, ap, some, List, [], ◌∷◌, length,
  arith,
}
use nesquic.Metrics.Probes.{
  Kernel, Msghdr, u32, run, body, pid_guard, submit_event_io, submit_event, count_from,
  count_iovec_len, count_user_msghdr, count_msghdr, submit_event_user_msghdr, submit_event_msghdr,
  sendmsg, sendmmsg,
}
use nesquic.Metrics.Probes.Submitted.{IsKernel}

unfoldable pub sum : List ℕ → ℕ
sum [] = 0
sum (n ∷ ns) = n + sum ns

pub sum_all : List (List ℕ) → ℕ
sum_all [] = 0
sum_all (ns ∷ rest) = sum ns + sum_all rest

module _ {kernel : Kernel} (laws : IsKernel kernel) (monitored_pid : ℕ) where
  open kernel use {World, pid_tgid, read_iovec, read_user_msghdr, read_mmsghdr, iterations}
  open laws use {iterations_law}

  -- The vector at `vec`, from the index `i` on, can be read and has buffers of these lengths.
  unfoldable pub IsVector : ℕ → ℕ → List ℕ → World → Type 0
  IsVector vec i [] w = Unit
  IsVector vec i (len ∷ lens) w =
      (read_iovec vec i w ≡ some (record { iov_len = len })) × IsVector vec (suc i) lens w

  -- A header of a message with buffers of these lengths, not too many for the loops.
  pub record IsMessage (msg : Msghdr) (lens : List ℕ) (w : World) : Type 0 where
    pub buffers : IsVector msg.msg_iov 0 lens w
    pub counted : msg.msg_iovlen ≡ length lens
    pub few : length lens ≤ 2 ^ 23

  unfoldable pub IsMessages : ℕ → ℕ → List (List ℕ) → World → Type 0
  IsMessages mmsg j [] w = Unit
  IsMessages mmsg j (lens ∷ rest) w =
      ((msg : Msghdr) × (read_mmsghdr mmsg j w ≡ some msg) × IsMessage msg lens w)
      × IsMessages mmsg (suc j) rest w

  count_from-sum :
      (vec i k : ℕ) (lens : List ℕ) (w : World)
      → k < 2 ^ 32
      → IsVector vec i lens w
      → count_from kernel monitored_pid vec (length lens) i k w ≡ u32 (k + sum lens)
  unfolding count_from IsVector sum
  count_from-sum vec i k [] w h v = omega arith
  count_from-sum vec i k (len ∷ lens) w h (there, v) =
      rw there (count_from-sum vec (suc i) (u32 (k + len)) lens w (omega arith) v ∙ omega arith)

  count_message :
      (msg : Msghdr) (lens : List ℕ) (w : World)
      → IsMessage msg lens w
      → count_iovec_len kernel monitored_pid msg.msg_iov (u32 msg.msg_iovlen) w ≡ u32 (sum lens)
  unfolding count_iovec_len
  count_message msg lens w h =
      let few = h.few in
      let same : u32 (length lens) ≡ length lens = omega arith in
      rw (h.counted, same, iterations_law (length lens) few)
        (count_from-sum msg.msg_iov 0 0 lens w (omega arith) h.buffers ∙ omega arith)

  count_user_msghdr-times :
      (msg : Msghdr) (lens : List ℕ) (n k : ℕ) (w : World)
      → IsMessage msg lens w
      → k < 2 ^ 32
      → count_user_msghdr kernel monitored_pid msg n k w ≡ u32 (k + n * sum lens)
  unfolding count_user_msghdr
  count_user_msghdr-times msg lens zero k w h small = omega arith
  count_user_msghdr-times msg lens (suc n) k w h small = rw (count_message msg lens w h) (
      count_user_msghdr-times msg lens n (u32 (k + u32 (sum lens))) w h (omega arith) ∙ grind arith)

  count_msghdr-sum :
      (mmsg j k : ℕ) (msgs : List (List ℕ)) (w : World)
      → k < 2 ^ 32
      → IsMessages mmsg j msgs w
      → count_msghdr kernel monitored_pid mmsg (length msgs) j k w ≡ some (u32 (k + sum_all msgs))
  unfolding count_msghdr IsMessages sum_all
  count_msghdr-sum mmsg j k [] w h ms = ap some (omega arith)
  count_msghdr-sum mmsg j k (lens ∷ msgs) w h ((msg, there, m), ms) =
      rw (there, count_message msg lens w m)
        (count_msghdr-sum mmsg (suc j) (u32 (k + u32 (sum lens))) msgs w (omega arith) ms
          ∙ ap some (omega arith))

  -- In the monitored process, on a message of some buffers, `sendmsg` submits the sum of their
  -- lengths times their number, of 32 bits.
  pub sendmsg-times :
      (args : ℕ → ℕ) (msg : Msghdr) (lens : List ℕ) (w : World)
      → pid_tgid w / 2 ^ 32 ≡ monitored_pid
      → read_user_msghdr (args 1) w ≡ some msg
      → IsMessage msg lens w
      → run kernel monitored_pid sendmsg args w
        ≡ submit_event kernel monitored_pid
            (record { syscall = 4; len = u32 (length lens * sum lens) })
            w
  unfolding run pid_guard body submit_event_user_msghdr submit_event_io
  sendmsg-times args msg lens w same there m =
      let rounds : iterations msg.msg_iovlen ≡ length lens =
        ap iterations m.counted ∙ iterations_law (length lens) m.few in
      rw
        (
          (==_iff _ _).1 same,
          body,
          submit_event_user_msghdr,
          there,
          rounds,
          count_user_msghdr-times msg lens (length lens) 0 w m (omega arith),
        )
        (ap (λ (n : ℕ). submit_event kernel monitored_pid (record { syscall = 4; len = u32 n }) w)
          (omega arith))

  -- In the monitored process, `sendmmsg` on up to 2^23 messages, whose headers and buffers can be read,
  -- submits the sum of the lengths of all their buffers, of 32 bits.
  pub sendmmsg-sum :
      (args : ℕ → ℕ) (msgs : List (List ℕ)) (w : World)
      → pid_tgid w / 2 ^ 32 ≡ monitored_pid
      → args 2 ≡ length msgs
      → length msgs ≤ 2 ^ 23
      → IsMessages (args 1) 0 msgs w
      → run kernel monitored_pid sendmmsg args w
        ≡ submit_event kernel monitored_pid (record { syscall = 5; len = u32 (sum_all msgs) }) w
  unfolding run pid_guard body submit_event_msghdr submit_event_io
  sendmmsg-sum args msgs w same counted few ms =
      let whole : u32 (length msgs) ≡ length msgs = omega arith in
      rw
        (
          (==_iff _ _).1 same,
          counted,
          whole,
          submit_event_msghdr,
          iterations_law (length msgs) few,
          count_msghdr-sum (args 1) 0 0 msgs w (omega arith) ms,
        )
        (ap (λ (n : ℕ). submit_event kernel monitored_pid (record { syscall = 5; len = u32 n }) w)
          (omega arith))
