-- ===== src/Neqo/Server/Finishing/Writable.antt =====
-- What a round brings in which the stream is writable.
use nesquic.Prelude.{
  ℕ, zero, suc, ◌+◌, ◌<◌, ◌≤◌, ◌≡◌, ◌⊎◌, inl, inr, true, Option, none, some, List, length, take,
  replicate, min, IfReturns, IfReturns-bind, arith, length-append, length-take, length-replicate,
  refl, ap,
}
use nesquic.Neqo.Transport.{Transport, View, IsTransport, send_stream_writable, Sent, Closed}
use nesquic.Neqo.Server.{
  StreamState, StreamStates, handle_event, try_send_response, send_loop, with_state, buf_len,
}
use nesquic.Neqo.Server.Frame.{after_send-Kept, send_loop-Kept}
use nesquic.Neqo.Server.System.{IsSoundStream}
use nesquic.Neqo.Server.Finishing.{IsOpen, IsRead, IsReadAt, IsRead-IsFrame, handle_event-IsRead}

module _ {t : Transport} (laws : IsTransport t) (c i : ℕ) where
  open t use {World, stream_send}
  open laws use {view}

  -- Where the stream takes data, a call on it takes some.
  unfoldable pub IsWritable : World → Type 0
  IsWritable w =
      (bytes : List ℕ)
      → 0 < length bytes
      → (view c i w).can_send ≡ true
      → (n : ℕ) × ((stream_send c i bytes w).0 ≡ some n) × (0 < n)

  send_loop-IsRead :
      (size k left : ℕ) (w : World)
      → IsReadAt laws c i size k w
      → (view c i w).can_send ≡ true
      → k ≤ length (view c i w).outbox
      → IsWritable w
      → IfReturns (send_loop t (suc left) c i left w) (λ r. IsReadAt laws c i size (suc k) r.1)
  unfolding send_loop IsReadAt IsWritable
  send_loop-IsRead size k zero w h on part takes = closed (laws.close_law c i w)
    where
      closed :
          Closed (view c i w) (view c i (t.stream_close_send c i w).1)
          → IsRead size (suc k) (view c i (t.stream_close_send c i w).1)
      closed (closes, keeps) =
          rw (closes on)
            (record { enough = h.enough; asks = h.asks; opened = inr refl; sent = inl refl })
  send_loop-IsRead size k (suc less) w h on part takes =
      let bytes = replicate (min (suc less) buf_len) 0 in
      let call = stream_send c i bytes w in
      let (n, some_taken, more) =
        takes bytes (omega (arith, length-replicate {A = ℕ} (min (suc less) buf_len) 0)) on in
      let after : IsRead size (suc k) (view c i call.1) =
        taken bytes call.0 n (laws.send_law c i bytes w) some_taken more in
      after_send-Kept (IsRead-IsFrame laws c i size (suc k) c i) (send_loop t (suc less) c i)
        (suc less) call.0 call.1 after
        (λ m. send_loop-Kept (IsRead-IsFrame laws c i size (suc k) c i) (suc less) m call.1 after)
    where
      taken :
          (bytes : List ℕ) (r : Option ℕ) (n : ℕ) {v' : View}
          → Sent bytes (view c i w) r v'
          → r ≡ some n
          → 0 < n
          → IsRead size (suc k) v'
      taken bytes none n sent e more = cc e
      taken bytes (some m) n (_, fits, same) e more =
          let m_is : m ≡ n = cc e in
          rw same (record {
            enough = h.enough;
            asks = h.asks;
            opened = inl on;
            sent = inr (
                omega (
                  arith,
                  part,
                  more,
                  fits,
                  m_is,
                  length-append (view c i w).outbox (take m bytes),
                  length-take m bytes,
                ));
          })

  -- The server knows what is left of a response that it has not finished.
  left_to_send :
      (size k : ℕ) (known : Option StreamState) (w : World)
      → IsSoundStream known (view c i w)
      → IsReadAt laws c i size k w
      → (view c i w).can_send ≡ true
      → (s : StreamState) × (left : ℕ) × (known ≡ some s) × (s.write_remaining ≡ some left)
  unfolding IsReadAt
  left_to_send size k none w (unread, _, _) h on =
      let all = ap (λ (bytes : List ℕ). length bytes) unread in
      absurd (omega (arith, h.enough, all))
  left_to_send size k (some s) w sound h on = elim sound.phase [
    | inl (short, _) ↦
        let all : length (view c i w).arrived ≡ length s.read_buf + length (view c i w).inbox =
          rw sound.arrives (length-append s.read_buf (view c i w).inbox) in
        absurd (omega (arith, h.enough, all, short))
    | inr (_, a) ↦ let (left, e, _) = a.pending on in (s, left, refl, e)
  ]

  -- A round in which the stream is writable sends one byte more, or finishes the response.
  pub writable-IsRead :
      (size k fuel : ℕ) (states : StreamStates) (w : World)
      → IsSoundStream (states i) (view c i w)
      → IsReadAt laws c i size k w
      → IsWritable w
      → IfReturns
          (handle_event t fuel c (send_stream_writable i) states w)
          (λ r. IsReadAt laws c i size (suc k) r.1)
  unfolding handle_event IsReadAt with_state try_send_response
  writable-IsRead size k fuel states w sound h takes = go h.opened h.sent
    where
      finished :
          (view c i w).finished ≡ true
          → IfReturns
              (handle_event t fuel c (send_stream_writable i) states w)
              (λ r. IsReadAt laws c i size (suc k) r.1)
      finished done =
          handle_event-IsRead laws c i size (suc k) c fuel (send_stream_writable i) states w
            (record { enough = h.enough; asks = h.asks; opened = h.opened; sent = inl done })

      go :
          IsOpen (view c i w)
          → ((view c i w).finished ≡ true) ⊎ (k ≤ length (view c i w).outbox)
          → IfReturns
              (handle_event t fuel c (send_stream_writable i) states w)
              (λ r. IsReadAt laws c i size (suc k) r.1)
      go (inr done) sent = finished done
      go (inl on) (inl done) = finished done
      go (inl on) (inr part) =
          let (s, left, known, some_left) = left_to_send size k (states i) w sound h on in
          rw (known, with_state, some_left, try_send_response)
            (IfReturns-bind (λ r. IsReadAt laws c i size (suc k) r.1) _ _ _
              (IfReturns-bind (λ r. IsReadAt laws c i size (suc k) r.1)
                (λ r. IsReadAt laws c i size (suc k) r.1) (send_loop t (suc left) c i left w) _
                (send_loop-IsRead size k left w h on part takes) (λ r kept. kept))
              (λ r kept. kept))
