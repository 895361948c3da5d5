-- ===== src/Neqo/Server/Finishing/Rounds.antt =====
-- That the response comes to its end: what the rounds add up to.
use nesquic.Prelude.{
  ℕ, suc, ◌+◌, ◌<◌, ◌≤◌, ◌≡◌, inl, inr, true, length, replicate, ok, arith, length-replicate, ◌∙◌,
  refl, ap,
}
use nesquic.Neqo.Transport.{Transport, IsTransport, send_stream_writable}
use nesquic.Neqo.Server.{StreamStates, handle_event}
use nesquic.Neqo.Server.Reading.{size_of}
use nesquic.Neqo.Server.Responses.{
  Step, Reach, next, polls, handles, network, Reach-IsSound, finished-response, outbox-IsPrefix,
}
use nesquic.Neqo.Server.Finishing.{IsOpen, IsReadAt, handle_event-IsRead, Network-IsRead}
use nesquic.Neqo.Server.Finishing.Writable.{IsWritable, writable-IsRead}

module _ {t : Transport} (laws : IsTransport t) (owner : ℕ → ℕ) (i : ℕ) where
  open t use {World}
  open laws use {view}

  -- A history with `n` rounds in which the stream is writable and the server is told so. Between
  -- them are any other steps, but the peer does not stop the response.
  pub data Rounds (before : StreamStates × World) : ℕ → StreamStates × World → Type 0 where
    starts : Rounds before 0 before
    passes :
        {n : ℕ} {now after : StreamStates × World}
        → Rounds before n now
        → Step laws owner now after
        → IsOpen (view (owner i) i after.1)
        → Rounds before n after
    writes :
        {n : ℕ} {states : StreamStates} {w : World} {after : StreamStates × World} (fuel : ℕ)
        → Rounds before n (states, w)
        → IsWritable laws (owner i) i w
        → ((j : ℕ) → length (view (owner j) j w).inbox < fuel)
        → handle_event t fuel (owner i) (send_stream_writable i) states w ≡ ok after
        → Rounds before (suc n) after

  Step-IsRead :
      (size k : ℕ) {now after : StreamStates × World}
      → Step laws owner now after
      → IsOpen (view (owner i) i after.1)
      → IsReadAt laws (owner i) i size k now.1
      → IsReadAt laws (owner i) i size k after.1
  unfolding IsReadAt
  Step-IsRead size k (polls {states = states} {w = w} c) still h =
      rw (laws.event_frame c (owner i) i w) h
  Step-IsRead size k (handles {states = states} {w = w} c fuel event first fits e) still h =
      rw e at (handle_event-IsRead laws (owner i) i size k c fuel event states w h)
  Step-IsRead size k (network {states = states} acts) still h =
      Network-IsRead h (states i) (acts i) still

  Rounds-Reach :
      {before : StreamStates × World} {n : ℕ} {after : StreamStates × World}
      → Reach laws owner before
      → Rounds before n after
      → Reach laws owner after
  Rounds-Reach r starts = r
  Rounds-Reach r (passes rounds step still) = next (Rounds-Reach r rounds) step
  Rounds-Reach r (writes fuel rounds takes fits e) =
      next (Rounds-Reach r rounds) (handles (owner i) fuel (send_stream_writable i) refl fits e)

  count_as :
      (size : ℕ) {k k' : ℕ} (w : World)
      → k ≡ k'
      → IsReadAt laws (owner i) i size k w
      → IsReadAt laws (owner i) i size k' w
  count_as size w e h = rw e at h

  Rounds-IsRead :
      (size k : ℕ) {before : StreamStates × World} {n : ℕ} {after : StreamStates × World}
      → Reach laws owner before
      → IsReadAt laws (owner i) i size k before.1
      → Rounds before n after
      → IsReadAt laws (owner i) i size (n + k) after.1
  Rounds-IsRead size k r h starts = count_as size _ (omega arith) h
  Rounds-IsRead size k r h (passes {n} rounds step still) =
      Step-IsRead size (n + k) step still (Rounds-IsRead size k r h rounds)
  Rounds-IsRead size k r h (writes {n} {states = states} {w = w} fuel rounds takes fits e) =
      count_as size _ (omega arith) (
        rw e at (
          writable-IsRead laws (owner i) i size (n + k) fuel states w
            (Reach-IsSound laws owner (Rounds-Reach r rounds) i) (Rounds-IsRead size k r h rounds)
            takes))

  -- Of clients no two of which use a stream of the same number, where each stream is announced once:
  -- from a state that is reached, in which the server has read at least eight bytes of a stream that
  -- takes data or is finished, a history, with any steps of these clients and the network in any
  -- order, in which the peer does not stop the response and the server is told of the stream more
  -- often than bytes are missing, each time while a call on it takes some data, ends with the stream
  -- finished and carrying as many zeros as the request asks for.
  pub Rounds-finished :
      {before after : StreamStates × World} {n : ℕ}
      → Reach laws owner before
      → length (view (owner i) i before.1).inbox + 8 ≤ length (view (owner i) i before.1).arrived
      → IsOpen (view (owner i) i before.1)
      → size_of (view (owner i) i before.1).arrived < n + length (view (owner i) i before.1).outbox
      → Rounds before n after
      → ((view (owner i) i after.1).finished ≡ true)
        × ((view (owner i) i after.1).outbox
            ≡ replicate (size_of (view (owner i) i before.1).arrived) 0)
  unfolding IsReadAt
  Rounds-finished {before} {after} {n} r enough opened many rounds =
      let size = size_of (view (owner i) i before.1).arrived in
      let k = length (view (owner i) i before.1).outbox in
      let h =
        Rounds-IsRead size k r
          (record { enough = enough; asks = refl; opened = opened; sent = inr (omega arith) })
          rounds in
      let r' = Rounds-Reach r rounds in
      let done : (view (owner i) i after.1).finished ≡ true = (elim h.sent [
        | inl done ↦ done
        | inr part ↦
            let (m, zeros, within, _) = outbox-IsPrefix laws owner i r' in
            let long : length (view (owner i) i after.1).outbox ≡ m =
              rw zeros (length-replicate {A = ℕ} m 0) in
            absurd (omega (arith, part, many, within, h.asks, long))
      ]) in
      (done, (finished-response laws owner i r' done).1 ∙ ap (λ (m : ℕ). replicate m 0) h.asks)
