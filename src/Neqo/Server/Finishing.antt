-- ===== src/Neqo/Server/Finishing.antt =====
-- A stream whose request was read, and what the calls of the server leave of it.
pub mod Writable
pub mod Rounds
use nesquic.Prelude.{
  ℕ, Bool, ◌+◌, ◌≤◌, ◌≡◌, ◌≢◌, ◌⊎◌, inl, inr, true, Option, none, some, List, length, take, Outcome,
  IfReturns, IfReturns-bind, Option-cases, Bool-cases, ◌==◌, ==_iff, arith, length-append, not,
  ◌||◌, ◌∙◌, refl,
}
use nesquic.Neqo.Transport.{
  Transport, View, IsTransport, ConnectionEvent, new_stream, recv_stream_readable,
  send_stream_writable, connected, other, Received, Sent, Closed,
}
use nesquic.Neqo.Server.{
  StreamState, StreamStates, handle_event, read_request, read_loop, try_send_response, with_state,
}
use nesquic.Neqo.Server.Frame.{IsFrame, try_send_response-Kept, read_loop-Kept}
use nesquic.Neqo.Server.Reading.{size_of, size_of-append}
use nesquic.Neqo.Server.System.{Network, idle, arrive, stop, open_stream}

-- The send side of a stream takes data, or was closed with all of it.
abbrev pub IsOpen : View → Type 0
IsOpen v = (v.can_send ≡ true) ⊎ (v.finished ≡ true)

-- The server has read a request for `size` bytes from an open stream, and has finished the response
-- or sent at least `k` bytes of it.
pub record IsRead (size k : ℕ) (v : View) : Type 0 where
  enough : length v.inbox + 8 ≤ length v.arrived
  asks : size_of v.arrived ≡ size
  opened : IsOpen v
  sent : (v.finished ≡ true) ⊎ (k ≤ length v.outbox)

module _ {size k : ℕ} {v v' : View} (h : IsRead size k v) where
  recv-IsRead : (n : ℕ) (r : Option (List ℕ × Bool)) → Received n v r v' → IsRead size k v'
  recv-IsRead n none same = rw same h
  recv-IsRead n (some (bytes, fin)) (small, handed, same) =
      let length-v : length v.inbox ≡ length bytes + length v'.inbox =
        rw handed (length-append bytes v'.inbox) in
      rw same (record {
        enough = omega (arith, h.enough, length-v);
        asks = h.asks;
        opened = h.opened;
        sent = h.sent;
      })

  send-IsRead : (bytes : List ℕ) (r : Option ℕ) → Sent bytes v r v' → IsRead size k v'
  send-IsRead bytes none (off, same) = rw same h
  send-IsRead bytes (some n) (on, taken, same) = rw same (record {
    enough = h.enough;
    asks = h.asks;
    opened = h.opened;
    sent = elim h.sent [
      | inl done ↦ inl done
      | inr part ↦ inr (omega (arith, part, length-append v.outbox (take n bytes)))
    ];
  })

  close-IsRead : Closed v v' → IsRead size k v'
  close-IsRead (closes, keeps) = elim (Bool-cases v.can_send) [
    | inl on ↦
        rw (closes on)
          (record { enough = h.enough; asks = h.asks; opened = inr refl; sent = inl refl })
    | inr off ↦ rw (keeps off) h
  ]

  Network-IsRead : (known : Option StreamState) → Network known v v' → IsOpen v' → IsRead size k v'
  Network-IsRead known (idle same) open_ = rw same h
  Network-IsRead known (arrive bytes same) open_ = rw same (record {
    enough = omega (arith, h.enough, length-append v.arrived bytes, length-append v.inbox bytes);
    asks = size_of-append v.arrived bytes (omega (arith, h.enough)) ∙ h.asks;
    opened = h.opened;
    sent = h.sent;
  })
  Network-IsRead known (stop same) open_ =
      let closed = rw same at open_ in
      rw same (record { enough = h.enough; asks = h.asks; opened = closed; sent = h.sent })
  Network-IsRead known (open_stream new same) open_ =
      rw same (record { enough = h.enough; asks = h.asks; opened = inl refl; sent = h.sent })

module _ {t : Transport} (laws : IsTransport t) (c i : ℕ) where
  open t use {World, stream_send, next_event}
  open laws use {view}

  pub IsReadAt : ℕ → ℕ → World → Type 0
  IsReadAt size k w = IsRead size k (view c i w)

  other-IsFrame : (size k d j : ℕ) → (d ≢ c) ⊎ (j ≢ i) → IsFrame t d j (IsReadAt size k)
  unfolding IsReadAt
  other-IsFrame size k d j ne = record {
    recv = λ n w h. rw (laws.recv_frame d j n c i w ne) h;
    send = λ bytes w h. rw (laws.send_frame d j bytes c i w ne) h;
    close = λ w h. rw (laws.close_frame d j c i w ne) h;
  }

  IsRead-IsFrame : (size k d j : ℕ) → IsFrame t d j (IsReadAt size k)
  unfolding IsReadAt
  IsRead-IsFrame size k d j = elim (Bool-cases (j == i)) [
    | inl same ↦ elim (Bool-cases (d == c)) [
      | inl own ↦
          rw ((==_iff j i).0 same, (==_iff d c).0 own)
            (record {
              recv = λ n w h. recv-IsRead h n _ (laws.recv_law c i n w);
              send = λ bytes w h. send-IsRead h bytes _ (laws.send_law c i bytes w);
              close = λ w h. close-IsRead h (laws.close_law c i w);
            })
      | inr differs ↦ other-IsFrame size k d j (inl (λ e. ground arith))
    ]
    | inr differs ↦ other-IsFrame size k d j (inr (λ e. ground arith))
  ]

  with_state-IsRead :
      (size k j : ℕ) (f : StreamState → World → Outcome (StreamState × World))
      (states : StreamStates) (w : World)
      → ((s : StreamState) → states j ≡ some s → IfReturns (f s w) (λ r. IsReadAt size k r.1))
      → IsReadAt size k w
      → IfReturns (with_state t f j states w) (λ r. IsReadAt size k r.1)
  unfolding with_state
  with_state-IsRead size k j f states w kept h = elim (Option-cases (states j)) [
    | inl unknown ↦ rw (unknown, with_state) h
    | inr (s, known) ↦
        rw (known, with_state)
          (IfReturns-bind (λ r. IsReadAt size k r.1) (λ r. IsReadAt size k r.1) (f s w) _
            (kept s known) (λ r left. left))
  ]

  handle_event-IsRead :
      (size k d fuel : ℕ) (event : ConnectionEvent) (states : StreamStates) (w : World)
      → IsReadAt size k w
      → IfReturns (handle_event t fuel d event states w) (λ r. IsReadAt size k r.1)
  unfolding handle_event read_request IsReadAt
  handle_event-IsRead size k d fuel (new_stream j) states w h = h
  handle_event-IsRead size k d fuel (recv_stream_readable j) states w h =
      elim (Bool-cases (not (t.is_client_initiated j) || not (t.is_bidi j))) [
        | inl ignored ↦ rw ignored h
        | inr ours ↦ rw ours (
            with_state-IsRead size k j (read_loop t fuel d j) states w
              (λ s _. read_loop-Kept (IsRead-IsFrame size k d j) fuel s w h) h)
      ]
  handle_event-IsRead size k d fuel (send_stream_writable j) states w h =
      with_state-IsRead size k j (try_send_response t d j) states w
        (λ s _. try_send_response-Kept (IsRead-IsFrame size k d j) s w h) h
  handle_event-IsRead size k d fuel connected states w h = rw (laws.ticket_frame d c i w) h
  handle_event-IsRead size k d fuel other states w h = h
