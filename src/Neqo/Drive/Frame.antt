-- ===== src/Neqo/Drive/Frame.antt =====
-- A round of the loop leaves the streams alone.
use nesquic.Prelude.{ℕ, ◌≡◌, Option, suc, Bool-cases, ap, some, ◌∙◌, inl, none, zero, inr, refl}
use nesquic.Prelude.Keeps.{Keeps, bind-Keeps}
use nesquic.Neqo.Driver.{
  Driver, IsDriver, View, IoResult, Output, Wake, done, would_block, failed, datagram_batch,
  callback, nothing, readable, timer,
}
use nesquic.Neqo.Drive.{
  round, after_output, after_recv, after_try, after_wake, drain_output, no_data, recv_all,
  send_batch, unless_events, wait, IoResult, Task, recv, Output, Wake, done, datagram_batch,
  callback, or_fail,
}

module _ {d : Driver} (laws : IsDriver d) (i : ℕ) (v : View) where
  open d use {World, Batch, Datagrams}
  open laws use {
    view, event_frame, output_frame, input_frame, send_inner_frame, recv_inner_frame,
    writable_frame, select_frame,
  }

  IsSeen : World → Type 0
  IsSeen w = view w i ≡ v

  after_try-Keeps :
      (again : Task World (Unit {0})) (r : IoResult (Unit {0}))
      → Keeps IsSeen again
      → Keeps IsSeen (after_try d again r)
  unfolding after_try IsSeen
  after_try-Keeps again (done _) h = λ w k. k
  after_try-Keeps again would_block h =
      bind-Keeps IsSeen _ _ (λ w k. writable_frame w i ∙ k) (λ _. h)
  after_try-Keeps again failed h = λ w k. k

  send_batch-Keeps : (fuel : ℕ) (x : Batch) → Keeps IsSeen (send_batch d fuel x)
  unfolding send_batch IsSeen
  send_batch-Keeps zero x w k = k
  send_batch-Keeps (suc fuel) x w k =
      after_try-Keeps _ _ (send_batch-Keeps fuel x) _ (send_inner_frame x w i ∙ k)

  after_output-Keeps :
      (again : Task World (Option ℕ)) (send : Batch → Task World (Unit {0})) (r : Output Batch)
      → Keeps IsSeen again
      → ((x : Batch) → Keeps IsSeen (send x))
      → Keeps IsSeen (after_output d again send r)
  unfolding after_output
  after_output-Keeps again send (datagram_batch x) h hs = bind-Keeps IsSeen _ _ (hs x) (λ _. h)
  after_output-Keeps again send (callback t) h hs = λ w k. k
  after_output-Keeps again send nothing h hs = λ w k. k

  drain_output-Keeps : (fuel : ℕ) → Keeps IsSeen (drain_output d fuel)
  unfolding drain_output IsSeen
  drain_output-Keeps zero w k = k
  drain_output-Keeps (suc fuel) w k =
      after_output-Keeps _ _ _ (drain_output-Keeps fuel) (send_batch-Keeps fuel) _
        (output_frame w i ∙ k)

  after_recv-Keeps :
      (again : Task World (Unit {0})) (x : Option Datagrams)
      → Keeps IsSeen again
      → Keeps IsSeen (after_recv d again x)
  unfolding after_recv IsSeen
  after_recv-Keeps again none h w k = k
  after_recv-Keeps again (some x) h w k = h _ (input_frame x w i ∙ k)

  no_data-same : (r : IoResult Datagrams) (w : World) → (no_data d (r, w)).1 ≡ w
  unfolding no_data
  no_data-same (done x) w = refl
  no_data-same would_block w = refl
  no_data-same failed w = refl

  recv_all-Keeps : (fuel : ℕ) → Keeps IsSeen (recv_all d fuel)
  unfolding recv_all recv IsSeen
  recv_all-Keeps zero = λ w k. k
  recv_all-Keeps (suc fuel) =
      bind-Keeps IsSeen (or_fail (recv d) "recv") (after_recv d (recv_all d fuel))
        (λ w k.
          ap (λ u. view u i) (no_data-same (d.recv_inner w).0 (d.recv_inner w).1)
          ∙ recv_inner_frame w i
          ∙ k)
        (λ x. after_recv-Keeps (recv_all d fuel) x (recv_all-Keeps fuel))

  after_wake-Keeps :
      (read : Task World (Unit {0})) (r : Wake)
      → Keeps IsSeen read
      → Keeps IsSeen (after_wake d read r)
  unfolding after_wake
  after_wake-Keeps read (readable none) h = λ w k. k
  after_wake-Keeps read (readable (some _)) h = h
  after_wake-Keeps read timer h = λ w k. k

  wait-Keeps : (fuel : ℕ) (timeout : Option ℕ) → Keeps IsSeen (wait d fuel timeout)
  unfolding wait IsSeen
  wait-Keeps fuel timeout w k =
      after_wake-Keeps _ _ (recv_all-Keeps fuel) _ (select_frame timeout w i ∙ k)

  unless_events-Keeps :
      (m : Task World (Unit {0})) → Keeps IsSeen m → Keeps IsSeen (unless_events d m)
  unfolding unless_events
  unless_events-Keeps m h w k = elim (Bool-cases (d.has_events w)) [
    | inl events ↦ rw events k
    | inr silent ↦ rw silent (h w k)
  ]

  -- What was read and sent on a stream is not changed by a round, however the round ends.
  pub round-Keeps : (fuel : ℕ) (w : World) → view w i ≡ v → view (round d fuel w).1 i ≡ v
  unfolding round IsSeen
  round-Keeps fuel =
      bind-Keeps IsSeen _ _ (drain_output-Keeps fuel)
        (λ timeout. unless_events-Keeps _ (wait-Keeps fuel timeout))
