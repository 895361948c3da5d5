-- ===== src/Metrics/Probes/Submitted.antt =====
-- What a run of a program puts into the ring buffer.
use nesquic.Prelude.{
  ℕ, zero, suc, ◌+◌, ◌/◌, ◌^◌, ◌<◌, ◌≤◌, ◌==◌, ◌≡◌, inl, inr, ◌∙◌, ap, refl, Option, none, some,
  List, [], ◌∷◌, ◌++◌, Bool-cases, arith, get_elem?,
}
use nesquic.Text.{Text, codes}
use nesquic.Metrics.Volumes.{EventIo, syscalls}
use nesquic.Metrics.Probes.{
  Kernel, Program, Msghdr, u32, writev, readv, write, read, recvmsg, recvmmsg, recvfrom, sendto,
  sendmsg, sendmmsg, run, body, pid_guard, submit_event_io, submit_event, after_reserve,
  after_write, submit_event_iovec, submit_event_user_msghdr, submit_event_msghdr, count_iovec_len,
  count_from, count_user_msghdr, count_msghdr,
}

-- The documented behaviour of the ring buffer: `buffer` is what was submitted and not yet consumed,
-- and `pending` what was written to the dynptr. A loop of at most `BPF_MAX_LOOPS` rounds runs whole.
pub record IsKernel (kernel : Kernel) : Type 1 where
  pub buffer : kernel.World → List EventIo
  pub pending : kernel.World → Option EventIo
  pub reserve_law : (w : kernel.World) → buffer (kernel.reserve w).1 ≡ buffer w
  pub write_buffer :
      (event : EventIo) (w : kernel.World) → buffer (kernel.write_event event w).1 ≡ buffer w
  pub write_pending :
      (event : EventIo) (w : kernel.World)
      → (kernel.write_event event w).0 ≡ some tt
      → pending (kernel.write_event event w).1 ≡ some event
  pub discard_law : (w : kernel.World) → buffer (kernel.discard w) ≡ buffer w
  pub submit_law :
      (event : EventIo) (w : kernel.World)
      → pending w ≡ some event
      → buffer (kernel.submit w) ≡ buffer w ++ (event ∷ [])
  pub iterations_law : (end : ℕ) → end ≤ 2 ^ 23 → kernel.iterations end ≡ end

-- The name of the system call, under which `monitor_io` attaches the program.
unfoldable pub name : Program → Text
name writev = codes "writev"
name readv = codes "readv"
name write = codes "write"
name read = codes "read"
name recvmsg = codes "recvmsg"
name recvmmsg = codes "recvmmsg"
name recvfrom = codes "recvfrom"
name sendto = codes "sendto"
name sendmsg = codes "sendmsg"
name sendmmsg = codes "sendmmsg"

-- An event of the system call `t`, which fits its fields.
pub record IsEventOf (t : Text) (event : EventIo) : Type 0 where
  pub named : get_elem? syscalls event.syscall ≡ some t
  pub known : event.syscall < 12
  pub fits : event.len < 2 ^ 32

IsU32 : Option ℕ → Type 0
IsU32 none = Unit
IsU32 (some k) = k < 2 ^ 32

module _ {kernel : Kernel} (laws : IsKernel kernel) (monitored_pid : ℕ) where
  open kernel use {
    World, reserve, write_event, discard, submit, pid_tgid, read_user_msghdr, iterations,
  }
  open laws use {buffer, pending, reserve_law, write_buffer, write_pending, discard_law, submit_law}

  -- Nothing more is in the buffer, or one event of this system call.
  pub data Submits (t : Text) (w w' : World) : Type 0 where
    nothing : buffer w' ≡ buffer w → Submits t w w'
    one :
        (event : EventIo)
        → IsEventOf t event
        → buffer w' ≡ buffer w ++ (event ∷ [])
        → Submits t w w'

  submit_event-Submits :
      (t : Text) (event : EventIo) (w : World)
      → IsEventOf t event
      → Submits t w (submit_event kernel monitored_pid event w)
  unfolding submit_event after_reserve after_write
  submit_event-Submits t event w h = reserved (reserve w).0 (reserve w).1 (reserve_law w)
    where
      written :
          (r : Option (Unit {0})) (u : World)
          → buffer u ≡ buffer w
          → (r ≡ some tt → pending u ≡ some event)
          → Submits t w (after_write kernel monitored_pid (r, u))
      written none u same kept = nothing (discard_law u ∙ same)
      written (some _) u same kept =
          one event h
            (submit_law event u (kept refl) ∙ ap (λ (es : List EventIo). es ++ (event ∷ [])) same)

      reserved :
          (r : Option (Unit {0})) (u : World)
          → buffer u ≡ buffer w
          → Submits t w (after_reserve kernel monitored_pid event (r, u))
      reserved none u same = nothing (discard_law u ∙ same)
      reserved (some _) u same =
          written (write_event event u).0 (write_event event u).1 (write_buffer event u ∙ same)
            (write_pending event u)

  -- The sums are of 32 bits.
  count_from-lt :
      (vec n i k : ℕ) (w : World)
      → k < 2 ^ 32
      → count_from kernel monitored_pid vec n i k w < 2 ^ 32
  unfolding count_from
  count_from-lt vec zero i k w h = h
  count_from-lt vec (suc n) i k w h =
      elim (kernel.read_iovec vec i w)
        as (λ o.
          elim o [
            | none ↦ 0
            | some iov ↦ count_from kernel monitored_pid vec n (suc i) (u32 (k + iov.iov_len)) w
          ]
          < 2 ^ 32) [
            | none ↦ omega arith
            | some iov ↦ count_from-lt vec n (suc i) (u32 (k + iov.iov_len)) w (omega arith)
          ]

  count_user_msghdr-lt :
      (msg : Msghdr) (n k : ℕ) (w : World)
      → k < 2 ^ 32
      → count_user_msghdr kernel monitored_pid msg n k w < 2 ^ 32
  unfolding count_user_msghdr
  count_user_msghdr-lt msg zero k w h = h
  count_user_msghdr-lt msg (suc n) k w h = count_user_msghdr-lt msg n _ w (omega arith)

  count_msghdr-IsU32 :
      (mmsg n j k : ℕ) (w : World)
      → k < 2 ^ 32
      → IsU32 (count_msghdr kernel monitored_pid mmsg n j k w)
  unfolding count_msghdr IsU32
  count_msghdr-IsU32 mmsg zero j k w h = h
  count_msghdr-IsU32 mmsg (suc n) j k w h =
      go (kernel.read_mmsghdr mmsg j w) (λ k' h'. count_msghdr-IsU32 mmsg n (suc j) k' w h')
    where
      go :
          (o : Option Msghdr)
          → ((k' : ℕ) → k' < 2 ^ 32 → IsU32 (count_msghdr kernel monitored_pid mmsg n (suc j) k' w))
          → IsU32 (elim o [
            | none ↦ none
            | some msg ↦
                count_msghdr kernel monitored_pid mmsg n
                  (suc j)
                  (u32
                    (k + count_iovec_len kernel monitored_pid msg.msg_iov (u32 msg.msg_iovlen) w))
                  w
          ])
      go none rest = tt
      go (some msg) rest = rest _ (omega arith)

  -- The parts that submit, each for the number of a system call `t`.
  module _ (t : Text) (number : ℕ) (known : number < 12)
      (named : get_elem? syscalls number ≡ some t) where
    io-Submits :
        (len : ℕ) (w : World)
        → len < 2 ^ 32
        → Submits t w (submit_event_io kernel monitored_pid number len w)
    unfolding submit_event_io
    io-Submits len w h =
        submit_event-Submits t (record { syscall = number; len = len }) w
          (record { named = named; known = known; fits = h })

    iovec-Submits :
        (vec vlen : ℕ) (w : World)
        → Submits t w (submit_event_iovec kernel monitored_pid number vec vlen w)
    unfolding submit_event_iovec count_iovec_len
    iovec-Submits vec vlen w =
        io-Submits _ w (count_from-lt vec (iterations vlen) 0 0 w (omega arith))

    user_msghdr-Submits :
        (msg_ptr : ℕ) (w : World)
        → Submits t w (submit_event_user_msghdr kernel monitored_pid number msg_ptr w)
    unfolding submit_event_user_msghdr
    user_msghdr-Submits msg_ptr w = go (read_user_msghdr msg_ptr w)
      where
        go :
            (o : Option Msghdr)
            → Submits t w (elim o [
              | none ↦ w
              | some msg ↦
                  submit_event_io kernel monitored_pid number
                    (count_user_msghdr kernel monitored_pid msg (iterations msg.msg_iovlen) 0 w)
                    w
            ])
        go none = nothing refl
        go (some msg) = io-Submits _ w (count_user_msghdr-lt msg _ 0 w (omega arith))

    msghdr-Submits :
        (mmsg vlen : ℕ) (w : World)
        → Submits t w (submit_event_msghdr kernel monitored_pid number mmsg vlen w)
    unfolding submit_event_msghdr IsU32
    msghdr-Submits mmsg vlen w =
        go (count_msghdr kernel monitored_pid mmsg (iterations vlen) 0 0 w)
          (count_msghdr-IsU32 mmsg (iterations vlen) 0 0 w (omega arith))
      where
        go :
            (o : Option ℕ)
            → IsU32 o
            → Submits t w
                (elim o [ none ↦ w | some k ↦ submit_event_io kernel monitored_pid number k w ])
        go none h = nothing refl
        go (some k) h = io-Submits k w h

  body-Submits :
      (program : Program) (args : ℕ → ℕ) (w : World)
      → Submits (name program) w (body kernel monitored_pid program args w)
  unfolding body name syscalls
  body-Submits writev args w = iovec-Submits _ 1 (omega arith) refl (args 1) _ w
  body-Submits readv args w = iovec-Submits _ 7 (omega arith) refl (args 1) _ w
  body-Submits write args w = io-Submits _ 0 (omega arith) refl _ w (omega arith)
  body-Submits read args w = io-Submits _ 6 (omega arith) refl _ w (omega arith)
  body-Submits recvmsg args w = user_msghdr-Submits _ 10 (omega arith) refl (args 1) w
  body-Submits recvmmsg args w = msghdr-Submits _ 11 (omega arith) refl (args 1) _ w
  body-Submits recvfrom args w = io-Submits _ 9 (omega arith) refl _ w (omega arith)
  body-Submits sendto args w = io-Submits _ 3 (omega arith) refl _ w (omega arith)
  body-Submits sendmsg args w = user_msghdr-Submits _ 4 (omega arith) refl (args 1) w
  body-Submits sendmmsg args w = msghdr-Submits _ 5 (omega arith) refl (args 1) _ w

  -- A run of a program, on any arguments and in any process, leaves the ring buffer as it is or puts
  -- one event behind what is there: an event whose number is that of the program's own system call in
  -- the table of the collector, and whose numbers fit their fields.
  pub run-Submits :
      (program : Program) (args : ℕ → ℕ) (w : World)
      → Submits (name program) w (run kernel monitored_pid program args w)
  unfolding run pid_guard
  run-Submits program args w = elim (Bool-cases (pid_tgid w / 2 ^ 32 == monitored_pid)) [
    | inl same ↦ rw same (body-Submits program args w)
    | inr other ↦ rw other (nothing refl)
  ]
