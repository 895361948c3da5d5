-- ===== src/Neqo/Server/System.antt =====
-- The server with clients no two of which use a stream of the same number: their events, in any
-- order, with the packets that arrive between them.
use nesquic.Prelude.{
  ℕ, ◌<◌, ◌≡◌, ◌≢◌, true, false, Option, none, some, List, Outcome, [], arith, ◌++◌, Bool-cases, ap,
  inl, Returns, inr, ◌==◌, ◌∙◌, ==_iff, IfReturns, append_assoc, refl, Option-cases, Returns-bind,
  length, sym, Returns-and, IfReturns-all, Returns-map, not, ◌||◌,
}
use nesquic.Neqo.Transport.{
  Transport, View, IsTransport, ConnectionEvent, new_stream, recv_stream_readable,
  send_stream_writable, connected, other,
}
use nesquic.Neqo.Server.{
  StreamState, StreamStates, insert, handle_event, empty, with_state, read_request, new,
  try_send_response, read_loop,
}
use nesquic.Neqo.Server.Reading.{IsServing}
use nesquic.Neqo.Server.Reading.Loop.{try_send_response-Served, read_loop-Returns}
use nesquic.Neqo.Server.Sending.{IsAnswering}
use nesquic.Neqo.Server.Frame.{IsFrame, try_send_response-Kept, read_loop-Kept}

-- A stream that the server knows, and one that it does not know yet.
abbrev pub IsSoundStream : Option StreamState → View → Type 0
IsSoundStream none v = (v.arrived ≡ v.inbox) × (v.outbox ≡ []) × (v.finished ≡ false)
IsSoundStream (some s) v = IsServing s v

-- What the network does to a stream of which the server has the given state: bytes arrive, the peer
-- stops the response, or the stream opens, which the server has not been told yet.
pub data Network (known : Option StreamState) (v v' : View) : Type 0 where
  idle : v' ≡ v → Network known v v'
  arrive :
      (bytes : List ℕ)
      → v' ≡ record v { arrived = v.arrived ++ bytes; inbox = v.inbox ++ bytes }
      → Network known v v'
  stop : v' ≡ record v { can_send = false } → Network known v v'
  open_stream : known ≡ none → v' ≡ record v { can_send = true } → Network known v v'

-- What an event of a connection says of a stream, where `owner` gives the one connection that uses a
-- stream of a number: the stream is one of that connection, and a new one is announced once.
abbrev pub Announced : (ℕ → ℕ) → ℕ → ConnectionEvent → StreamStates → Type 0
Announced owner c (new_stream i) states = (owner i ≡ c) × (states i ≡ none)
Announced owner c (recv_stream_readable i) states = owner i ≡ c
Announced owner c (send_stream_writable i) states = owner i ≡ c
Announced owner c connected states = Unit
Announced owner c other states = Unit

IsAnswering-arrive :
    {size : ℕ} {left : Option ℕ} {v : View} (all rest : List ℕ)
    → IsAnswering size left v
    → IsAnswering size left (record v { arrived = all; inbox = rest })
IsAnswering-arrive all rest a = record {
  zeros = a.zeros;
  within = a.within;
  complete = a.complete;
  pending = a.pending;
}

arrive-IsServing :
    (s : StreamState) (v : View) (bytes : List ℕ)
    → IsServing s v
    → IsServing s (record v { arrived = v.arrived ++ bytes; inbox = v.inbox ++ bytes })
arrive-IsServing s v bytes h = record {
  arrives = ap (λ (l : List ℕ). l ++ bytes) h.arrives ∙ append_assoc s.read_buf v.inbox bytes;
  phase = elim h.phase [
    | inl waiting ↦ inl waiting
    | inr (enough, a) ↦ inr (enough, IsAnswering-arrive _ _ a)
  ];
}

stop-IsServing :
    (s : StreamState) (v : View) → IsServing s v → IsServing s (record v { can_send = false })
stop-IsServing s v h = record {
  arrives = h.arrives;
  phase = elim h.phase [
    | inl waiting ↦ inl waiting
    | inr (enough, a) ↦ inr (
      enough,
      record {
        zeros = a.zeros;
        within = a.within;
        complete = λ e. ((a.complete e).0, refl);
        pending = λ on. cc;
      },
    )
  ];
}

pub Network-IsSoundStream :
    (known : Option StreamState) (v v' : View)
    → Network known v v'
    → IsSoundStream known v
    → IsSoundStream known v'
Network-IsSoundStream known v v' (idle e) h = rw e h
Network-IsSoundStream none v v' (arrive bytes e) h = rw e (ground arith)
Network-IsSoundStream (some s) v v' (arrive bytes e) h = rw e (arrive-IsServing s v bytes h)
Network-IsSoundStream none v v' (stop e) h = rw e h
Network-IsSoundStream (some s) v v' (stop e) h = rw e (stop-IsServing s v h)
Network-IsSoundStream none v v' (open_stream new e) h = rw e h
Network-IsSoundStream (some s) v v' (open_stream new e) h = cc new

new-IsServing : (v : View) → IsSoundStream none v → IsServing new v
new-IsServing v (unread, empty, unfinished) = record {
  arrives = unread;
  phase = inl (omega arith, (refl, empty, unfinished));
}

module _ {t : Transport} (laws : IsTransport t) (owner : ℕ → ℕ) where
  open t use {World}
  open laws use {view}

  abbrev pub IsSound : StreamStates × World → Type 0
  IsSound (states, w) = (i : ℕ) → IsSoundStream (states i) (view (owner i) i w)

  other_stream : (c i j : ℕ) (v : View) → i ≢ j → IsFrame t c i (λ w. view (owner j) j w ≡ v)
  other_stream c i j v ne = record {
    recv = λ n w e. laws.recv_frame c i n (owner j) j w (inr ne) ∙ e;
    send = λ bytes w e. laws.send_frame c i bytes (owner j) j w (inr ne) ∙ e;
    close = λ w e. laws.close_frame c i (owner j) j w (inr ne) ∙ e;
  }

  -- Replacing the state of one stream, where the others are left alone.
  insert-IsSound :
      (i : ℕ) (s : StreamState) (states : StreamStates) (w w' : World)
      → IsSound (states, w)
      → IsServing s (view (owner i) i w')
      → ((j : ℕ) → i ≢ j → view (owner j) j w' ≡ view (owner j) j w)
      → IsSound (insert i s states, w')
  unfolding insert
  insert-IsSound i s states w w' sound h others j = elim (Bool-cases (j == i)) [
    | inl same ↦ rw same (let e : j ≡ i = (==_iff j i).0 same in rw e h)
    | inr differs ↦ rw differs (rw (others j (λ e. ground arith)) (sound j))
  ]

  abbrev Continue : Type 0
  Continue = StreamState → World → Outcome (StreamState × World)

  with_state-Returns :
      (f : Continue) (i : ℕ) (states : StreamStates) (w : World)
      → IsSound (states, w)
      → ((s : StreamState)
          → IsServing s (view (owner i) i w)
          → Returns (f s w) (λ (s', w'). IsServing s' (view (owner i) i w')))
      → ((s : StreamState) (j : ℕ)
          → i ≢ j
          → IfReturns (f s w) (λ (s', w'). view (owner j) j w' ≡ view (owner j) j w))
      → Returns (with_state t f i states w) IsSound
  unfolding with_state
  with_state-Returns f i states w sound serves frame = elim (Option-cases (states i)) [
    | inl unknown ↦ rw (unknown, with_state) sound
    | inr (s, known) ↦
        rw (known, with_state)
          (Returns-bind (Left s) IsSound (f s w) _
            (Returns-and _ _ (f s w) (serves s (rw known at (sound i))) (
              IfReturns-all (λ (j : ℕ). i ≢ j)
                (λ j (s', w'). view (owner j) j w' ≡ view (owner j) j w) (f s w) (frame s)))
            (λ (s', w') (h, others). insert-IsSound i s' states w w' sound h others))
  ]
    where
      Left : StreamState → StreamState × World → Type 0
      Left s (s', w') =
          IsServing s' (view (owner i) i w')
          × ((j : ℕ) → i ≢ j → view (owner j) j w' ≡ view (owner j) j w)

  -- Where the event announces a stream that is not known yet, or is of a stream of its own
  -- connection, or of no stream, and the fuel exceeds what is unread on each stream: from states in
  -- which every stream is as its invariant says, where no two connections use a stream of the same
  -- number, the handler returns and never panics, and leaves every stream as its invariant says.
  pub handle_event-Returns :
      (c fuel : ℕ) (event : ConnectionEvent) (states : StreamStates) (w : World)
      → Announced owner c event states
      → ((i : ℕ) → length (view (owner i) i w).inbox < fuel)
      → IsSound (states, w)
      → Returns (handle_event t fuel c event states w) IsSound
  unfolding handle_event read_request
  handle_event-Returns c fuel (new_stream i) states w (_, first) fits sound =
      insert-IsSound i new states w w sound
        (new-IsServing (view (owner i) i w) (rw first at (sound i))) (λ j ne. refl)
  handle_event-Returns c fuel (recv_stream_readable i) states w own fits sound =
      elim (Bool-cases (not (t.is_client_initiated i) || not (t.is_bidi i))) [
        | inl ignored ↦ rw ignored sound
        | inr ours ↦
            rw (ours, sym own)
              (with_state-Returns (read_loop t fuel (owner i) i) i states w sound
                (λ s h.
                  Returns-map _ _ (read_loop t fuel (owner i) i s w)
                    (read_loop-Returns laws (owner i) i fuel s w (fits i) h)
                    (λ (s', w') (h', _). h'))
                (λ s j ne.
                  read_loop-Kept (other_stream (owner i) i j (view (owner j) j w) ne) fuel s w
                    refl))
      ]
  handle_event-Returns c fuel (send_stream_writable i) states w own fits sound = rw (sym own) (
      with_state-Returns (try_send_response t (owner i) i) i states w sound
        (λ s h.
          Returns-map _ _ (try_send_response t (owner i) i s w)
            (try_send_response-Served laws (owner i) i s w h) (λ (s', w') (h', _). h'))
        (λ s j ne.
          try_send_response-Kept (other_stream (owner i) i j (view (owner j) j w) ne) s w refl))
  handle_event-Returns c fuel connected states w first fits sound =
      λ i. rw (laws.ticket_frame c (owner i) i w) (sound i)
  handle_event-Returns c fuel other states w first fits sound = sound
