-- ===== src/Metrics/Probes.antt =====
-- nesquic/src/metrics/metrics.bpf.c: the programs that run when a system call is entered. The kernel's
-- helpers are parameters; a pointer is a number, and the logging is left out.
mod Tests
pub mod Submitted
pub mod Counts
use nesquic.Prelude.{ℕ, zero, suc, ◌+◌, ◌/◌, ◌%◌, ◌^◌, ◌==◌, Option, none, some, if◌then◌else◌}
use nesquic.Metrics.Volumes.{EventIo}

-- `struct iovec`, `struct user_msghdr`, and the header in a `struct mmsghdr`, by the fields that are
-- used.
pub record Iovec : Type 0 where
  pub iov_len : ℕ

pub record Msghdr : Type 0 where
  pub msg_iov : ℕ
  pub msg_iovlen : ℕ

-- The helpers. `bpf_probe_read_user` reads from a pointer, or the element of an array at an index, and
-- a call returns `none` where C has an error.
pub record Kernel : Type 1 where
  pub World : Type 0
  pub pid_tgid : World → ℕ
  pub read_iovec : ℕ → ℕ → World → Option Iovec
  pub read_user_msghdr : ℕ → World → Option Msghdr
  pub read_mmsghdr : ℕ → ℕ → World → Option Msghdr
  -- How often `bpf_for(i, 0, end)` runs.
  pub iterations : ℕ → ℕ
  -- The calls on a dynptr of the ring buffer: to reserve the size of an event, to write one, to
  -- discard it and to submit it.
  pub reserve : World → Option (Unit {0}) × World
  pub write_event : EventIo → World → Option (Unit {0}) × World
  pub discard : World → World
  pub submit : World → World

abbrev pub event_io_syscall_write : ℕ
event_io_syscall_write = 0

abbrev pub event_io_syscall_writev : ℕ
event_io_syscall_writev = 1

abbrev pub event_io_syscall_sendto : ℕ
event_io_syscall_sendto = 3

abbrev pub event_io_syscall_sendmsg : ℕ
event_io_syscall_sendmsg = 4

abbrev pub event_io_syscall_sendmmsg : ℕ
event_io_syscall_sendmmsg = 5

abbrev pub event_io_syscall_read : ℕ
event_io_syscall_read = 6

abbrev pub event_io_syscall_readv : ℕ
event_io_syscall_readv = 7

abbrev pub event_io_syscall_recvfrom : ℕ
event_io_syscall_recvfrom = 9

abbrev pub event_io_syscall_recvmsg : ℕ
event_io_syscall_recvmsg = 10

abbrev pub event_io_syscall_recvmmsg : ℕ
event_io_syscall_recvmmsg = 11

-- The programs of the file, each on the entry of the system call of its name.
pub data Program : Type 0 where
  writev : Program
  readv : Program
  write : Program
  read : Program
  recvmsg : Program
  recvmmsg : Program
  recvfrom : Program
  sendto : Program
  sendmsg : Program
  sendmmsg : Program

abbrev pub u32 : ℕ → ℕ
u32 n = n % 2 ^ 32

module _ (kernel : Kernel) (monitored_pid : ℕ) where
  open kernel use {
    World, pid_tgid, read_iovec, read_user_msghdr, read_mmsghdr, iterations, reserve, write_event,
    discard, submit,
  }

  pid_guard : (World → World) → World → World
  pid_guard body w = if pid_tgid w / 2 ^ 32 == monitored_pid then body w else w

  after_write : Option (Unit {0}) × World → World
  after_write (none, w) = discard w
  after_write (some _, w) = submit w

  after_reserve : EventIo → Option (Unit {0}) × World → World
  after_reserve event (none, w) = discard w
  after_reserve event (some _, w) = after_write (write_event event w)

  pub submit_event : EventIo → World → World
  submit_event event w = after_reserve event (reserve w)

  submit_event_io : ℕ → ℕ → World → World
  submit_event_io syscall len = submit_event (record { syscall = syscall; len = len })

  -- The loop of `count_iovec_len`: the rounds that are left, the index and the sum.
  count_from : ℕ → ℕ → ℕ → ℕ → World → ℕ
  count_from vec zero i k w = k
  count_from vec (suc n) i k w = elim (read_iovec vec i w) [
    | none ↦ 0
    | some iov ↦ count_from vec n (suc i) (u32 (k + iov.iov_len)) w
  ]

  count_iovec_len : ℕ → ℕ → World → ℕ
  count_iovec_len vec vlen w = count_from vec (iterations vlen) 0 0 w

  submit_event_iovec : ℕ → ℕ → ℕ → World → World
  submit_event_iovec syscall vec vlen w = submit_event_io syscall (count_iovec_len vec vlen w) w

  -- The loop of `_submit_event_user_msghdr`.
  count_user_msghdr : Msghdr → ℕ → ℕ → World → ℕ
  count_user_msghdr msg zero k w = k
  count_user_msghdr msg (suc n) k w =
      count_user_msghdr msg n (u32 (k + count_iovec_len msg.msg_iov (u32 msg.msg_iovlen) w)) w

  submit_event_user_msghdr : ℕ → ℕ → World → World
  submit_event_user_msghdr syscall msg_ptr w = elim (read_user_msghdr msg_ptr w) [
    | none ↦ w
    | some msg ↦ submit_event_io syscall (count_user_msghdr msg (iterations msg.msg_iovlen) 0 w) w
  ]

  -- The loop of `_submit_event_msghdr`, `none` where it returns.
  count_msghdr : ℕ → ℕ → ℕ → ℕ → World → Option ℕ
  count_msghdr mmsg zero j k w = some k
  count_msghdr mmsg (suc n) j k w = elim (read_mmsghdr mmsg j w) [
    | none ↦ none
    | some msg ↦
        count_msghdr mmsg n (suc j) (u32 (k + count_iovec_len msg.msg_iov (u32 msg.msg_iovlen) w)) w
  ]

  submit_event_msghdr : ℕ → ℕ → ℕ → World → World
  submit_event_msghdr syscall mmsg vlen w = elim (count_msghdr mmsg (iterations vlen) 0 0 w) [
    | none ↦ w
    | some k ↦ submit_event_io syscall k w
  ]

  -- What the programs do with the arguments of the system call.
  body : Program → (ℕ → ℕ) → World → World
  body writev args = submit_event_iovec event_io_syscall_writev (args 1) (u32 (args 2))
  body readv args = submit_event_iovec event_io_syscall_readv (args 1) (u32 (args 2))
  body write args = submit_event_io event_io_syscall_write (u32 (args 2))
  body read args = submit_event_io event_io_syscall_read (u32 (args 2))
  body recvmsg args = submit_event_user_msghdr event_io_syscall_recvmsg (args 1)
  body recvmmsg args = submit_event_msghdr event_io_syscall_recvmmsg (args 1) (u32 (args 2))
  body recvfrom args = submit_event_io event_io_syscall_recvfrom (u32 (args 2))
  body sendto args = submit_event_io event_io_syscall_sendto (u32 (args 2))
  body sendmsg args = submit_event_user_msghdr event_io_syscall_sendmsg (args 1)
  body sendmmsg args = submit_event_msghdr event_io_syscall_sendmmsg (args 1) (u32 (args 2))

  pub run : Program → (ℕ → ℕ) → World → World
  run program args = pid_guard (body program args)
