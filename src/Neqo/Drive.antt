-- ===== src/Neqo/Drive.antt =====
-- The loop `drive_until` of iut/neqo/src/client.rs, and the socket of iut/neqo/src/lib.rs. The loops
-- take fuel: one number bounds each loop inside a round, and another the rounds.
pub mod Frame
pub mod Rounds
use nesquic.Prelude.{ℕ, zero, suc, Option, Bool, if◌then◌else◌, stuck, ok, some, true, false, none}
use nesquic.Neqo.Driver.{
  Driver, IoResult, Output, Wake, done, datagram_batch, readable, callback, would_block, failed,
  timer, nothing,
}
use nesquic.Prelude.Tasks.{Task, pure, or_fail, fail, ◌>>=◌, lift}

module _ (d : Driver) where
  open d use {
    World, Batch, Datagrams, process_multiple_output, has_events, process_multiple_input,
    send_inner, recv_inner, writable, select,
  }

  -- `UdpSocket::recv`: `WouldBlock` is no error, but nothing to read.
  unfoldable pub no_data : IoResult Datagrams × World → Option (Option Datagrams) × World
  no_data (done x, w) = (some (some x), w)
  no_data (would_block, w) = (some none, w)
  no_data (failed, w) = (none, w)

  unfoldable pub recv : World → Option (Option Datagrams) × World
  unfolding no_data
  recv w = no_data (recv_inner w)

  -- "Retry on WouldBlock to respect OS send-buffer backpressure."
  unfoldable pub after_try : Task World (Unit {0}) → IoResult (Unit {0}) → Task World (Unit {0})
  after_try again (done _) = pure tt
  after_try again would_block = do _ ← or_fail writable "socket writable"; again
  after_try again failed = fail "send UDP datagram"

  unfoldable pub send_batch : ℕ → Batch → Task World (Unit {0})
  send_batch zero x w = (stuck, w)
  send_batch (suc fuel) x w = after_try (send_batch fuel x) (send_inner x w).0 (send_inner x w).1

  -- "Drain all outgoing datagram batches (GSO-aware)." The timeout is returned.
  unfoldable pub after_output :
      Task World (Option ℕ) → (Batch → Task World (Unit {0})) → Output Batch → Task World (Option ℕ)
  after_output again send (datagram_batch x) = do _ ← send x; again
  after_output again send (callback dur) = pure (some dur)
  after_output again send nothing = pure none

  unfoldable pub drain_output : ℕ → Task World (Option ℕ)
  drain_output zero w = (stuck, w)
  drain_output (suc fuel) w =
      after_output (drain_output fuel) (send_batch fuel) (process_multiple_output w).0
        (process_multiple_output w).1

  -- "Drain all datagrams available right now (GRO may have batched several)."
  unfoldable pub after_recv : Task World (Unit {0}) → Option Datagrams → Task World (Unit {0})
  after_recv again none = pure tt
  after_recv again (some x) = λ w. again (process_multiple_input x w)

  unfoldable pub recv_all : ℕ → Task World (Unit {0})
  recv_all zero = lift stuck
  recv_all (suc fuel) = do x ← or_fail recv "recv"; after_recv (recv_all fuel) x

  unfoldable pub after_wake : Task World (Unit {0}) → Wake → Task World (Unit {0})
  after_wake read (readable none) = fail "socket readable"
  after_wake read (readable (some _)) = read
  after_wake read timer = pure tt

  unfoldable pub wait : ℕ → Option ℕ → Task World (Unit {0})
  wait fuel timeout w = after_wake (recv_all fuel) (select timeout w).0 (select timeout w).1

  -- "If new events were generated while draining output, loop without waiting."
  unfoldable pub unless_events : Task World (Unit {0}) → Task World (Unit {0})
  unless_events next_packet w = if has_events w then (ok tt, w) else next_packet w

  -- A round of the loop behind the check.
  unfoldable pub round : ℕ → Task World (Unit {0})
  round fuel = do timeout ← drain_output fuel; unless_events (wait fuel timeout)

  module _ {S : Type 0} where
    -- A task of the connection where a closure holds some variables.
    abbrev pub beside : {A : Type 0} → Task World A → Task (World × S) A
    beside m (w, s) = let (r, w') = m w in (r, (w', s))

    unfoldable pub unless_done : Task (World × S) (Unit {0}) → Bool → Task (World × S) (Unit {0})
    unless_done again true = pure tt
    unless_done again false = again

    unfoldable pub drive_until : ℕ → ℕ → Task (World × S) Bool → Task (World × S) (Unit {0})
    drive_until zero fuel check = lift stuck
    drive_until (suc rounds) fuel check = do
      finished ← check
      unless_done (do _ ← beside (round fuel); drive_until rounds fuel check) finished
