-- ===== src/Neqo/Server/TwoClients.antt =====
-- Two clients in memory: a run of their events, and that it satisfies what the rounds need.
use nesquic.Prelude.{
  ℕ, [], false, refl, some, List, if◌then◌else◌, true, ◌==◌, ◌∷◌, Option, ◌||◌, none, value_or, ◌≡◌,
  Bool, Bool-cases, ok, inl, sym, ==_iff, ◌∙◌, inr, ok-injective, length, ◌<◌, arith,
}
use nesquic.Neqo.Memory.{Cells, memory, memory-IsTransport, Cell, update, recv, send, close}
use nesquic.Neqo.Transport.{
  IsTransport, Transport, ConnectionEvent, new_stream, recv_stream_readable,
}
use nesquic.Neqo.Server.{
  StreamStates, empty, handle_event, read_request, with_state, read_loop, after_recv, parse_header,
  respond, after_round, try_send_response, send_loop, after_send, is_some, insert,
}
use nesquic.Neqo.Server.System.{Announced}
use nesquic.Perf.Blob.{try_from}
use nesquic.Perf.Bytes.{from_be_bytes}
use nesquic.Neqo.Server.Events.{IsServed}

-- The transport in memory with the events that are to come, each with its connection.
abbrev pub Host : Type 0
Host = List (ℕ × ConnectionEvent) × Cells

pub pop : ℕ → List (ℕ × ConnectionEvent) → Option ConnectionEvent × List (ℕ × ConnectionEvent)
pop c [] = (none, [])
pop c ((d, event) ∷ queue) = if d == c then (some event, queue) else (none, (d, event) ∷ queue)

pub on_cells : {A : Type 0} → (Cells → A × Cells) → Host → A × Host
on_cells call (queue, w) = ((call w).0, (queue, (call w).1))

abbrev pub queued : Transport
queued = record {
  World = Host;
  is_client_initiated = memory.is_client_initiated;
  is_bidi = memory.is_bidi;
  active_connections = λ w. 1 ∷ 2 ∷ [];
  next_event = λ c (queue, w). ((pop c queue).0, ((pop c queue).1, w));
  stream_recv = λ c i n. on_cells (memory.stream_recv c i n);
  stream_send = λ c i bytes. on_cells (memory.stream_send c i bytes);
  stream_close_send = λ c i. on_cells (memory.stream_close_send c i);
  send_ticket = λ c. on_cells (memory.send_ticket c);
}

unfoldable pub queued-IsTransport : IsTransport queued
unfolding on_cells
queued-IsTransport = record {
  view = λ c i w. memory-IsTransport.view c i w.1;
  recv_law = λ c i n w. memory-IsTransport.recv_law c i n w.1;
  send_law = λ c i bytes w. memory-IsTransport.send_law c i bytes w.1;
  close_law = λ c i w. memory-IsTransport.close_law c i w.1;
  recv_frame = λ c i n d j w. memory-IsTransport.recv_frame c i n d j w.1;
  send_frame = λ c i bytes d j w. memory-IsTransport.send_frame c i bytes d j w.1;
  close_frame = λ c i d j w. memory-IsTransport.close_frame c i d j w.1;
  event_frame = λ c d j w. refl;
  ticket_frame = λ c d j w. refl;
}

-- Connection 1 uses stream 0, and connection 2 the others.
abbrev pub owner : ℕ → ℕ
owner i = if i == 0 then 1 else 2

abbrev five : List ℕ
five = 0 ∷ 0 ∷ 0 ∷ 0 ∷ 0 ∷ 0 ∷ 0 ∷ 5 ∷ []

abbrev asking : Cell
asking = record {
  seen = record { arrived = five; inbox = five; outbox = []; can_send = true; finished = false };
  credit = 3;
}

-- Each client has asked for five bytes, on stream 0 and on stream 4, and takes three.
abbrev pub both : Cells
both c i = if i == 0 || i == 4 then asking else record {
  seen = record { arrived = []; inbox = []; outbox = []; can_send = false; finished = false };
  credit = 0;
}

abbrev pub queue : List (ℕ × ConnectionEvent)
queue =
    (1, new_stream 0)
    ∷ (1, recv_stream_readable 0)
    ∷ (2, new_stream 4)
    ∷ (2, recv_stream_readable 4)
    ∷ []

-- The states that the four events lead to.
abbrev step : ℕ → StreamStates × Host → StreamStates × Host
step c (states, w) = elim (queued.next_event c w).0 [
  | none ↦ (states, w)
  | some event ↦
      value_or (states, w) (handle_event queued 9 c event states (queued.next_event c w).1)
]

abbrev pub at_start : StreamStates × Host
at_start = (empty, (queue, both))

pub run_to_1 : StreamStates × Host
run_to_1 = step 1 at_start

pub run_to_2 : StreamStates × Host
run_to_2 = step 1 run_to_1

pub run_to_3 : StreamStates × Host
run_to_3 = step 2 run_to_2

pub run_to_4 : StreamStates × Host
run_to_4 = step 2 run_to_3

pub data IsOnWay : StreamStates × Host → Type 0 where
  way_0 : IsOnWay at_start
  way_1 : IsOnWay run_to_1
  way_2 : IsOnWay run_to_2
  way_3 : IsOnWay run_to_3
  way_4 : IsOnWay run_to_4

on_way :
    (P : StreamStates × Host → Type 0)
    → P at_start
    → P run_to_1
    → P run_to_2
    → P run_to_3
    → P run_to_4
    → (now : StreamStates × Host) → IsOnWay now
    → P now
on_way P p0 p1 p2 p3 p4 now way_0 = p0
on_way P p0 p1 p2 p3 p4 now way_1 = p1
on_way P p0 p1 p2 p3 p4 now way_2 = p2
on_way P p0 p1 p2 p3 p4 now way_3 = p3
on_way P p0 p1 p2 p3 p4 now way_4 = p4

pop-eq_none : (c : ℕ) (q : List (ℕ × ConnectionEvent)) → (pop c q).0 ≡ none → (pop c q).1 ≡ q
unfolding pop
pop-eq_none c [] e = refl
pop-eq_none c ((d, x) ∷ q) e = go (d == c) e
  where
    popped : Bool → Option ConnectionEvent × List (ℕ × ConnectionEvent)
    popped b = if b then (some x, q) else (none, (d, x) ∷ q)

    go : (b : Bool) → (popped b).0 ≡ none → (popped b).1 ≡ (d, x) ∷ q
    go true e = cc
    go false e = refl

pop-eq_some :
    (c d : ℕ) (x : ConnectionEvent) (q : List (ℕ × ConnectionEvent)) {event : ConnectionEvent}
    → (pop c ((d, x) ∷ q)).0 ≡ some event
    → (c ≡ d) × (event ≡ x) × ((pop c ((d, x) ∷ q)).1 ≡ q)
unfolding pop
pop-eq_some c d x q {event} head = elim (Bool-cases (d == c)) [
  | inl own ↦
      rw own
        (sym ((==_iff d c).0 own), (let same : some x ≡ some event = rw own at head in cc), refl)
  | inr differs ↦ cc (rw differs at head)
]

-- What a state is that lies on the way: little is unread, and the next event leads on.
record IsStage (now : StreamStates × Host) : Type 0 where
  few : (i : ℕ) → length (now.1.1 (owner i) i).seen.inbox < 9
  moves :
      (c : ℕ) {event : ConnectionEvent} {after : StreamStates × Host}
      → (queued.next_event c now.1).0 ≡ some event
      → Announced owner c event now.0
        × (handle_event queued 9 c event now.0 (queued.next_event c now.1).1 ≡ ok after
            → IsOnWay after)

module _ (d : ℕ) (x : ConnectionEvent) (q : List (ℕ × ConnectionEvent)) (states : StreamStates)
    (cells : Cells) (next : StreamStates × Host)
    (leads : handle_event queued 9 d x states (q, cells) ≡ ok next) (way : IsOnWay next) where
  leads_on :
      (c : ℕ) {event : ConnectionEvent} {after : StreamStates × Host}
      → (pop c ((d, x) ∷ q)).0 ≡ some event
      → handle_event queued 9 c event states ((pop c ((d, x) ∷ q)).1, cells) ≡ ok after
      → IsOnWay after
  leads_on c {after = after} head e =
      let (own, same, rest) = pop-eq_some c d x q head in
      let run : ok next ≡ ok after = sym leads ∙ rw (rest, own, same) at e in
      rw (sym (ok-injective run)) way

  stage :
      ((i : ℕ) → length (cells (owner i) i).seen.inbox < 9)
      → Announced owner d x states
      → IsStage (states, ((d, x) ∷ q, cells))
  stage few first = record {
    few = few;
    moves = λ c head.
        let (own, same, rest) = pop-eq_some c d x q head in (rw (own, same) first, leads_on c head);
  }

few :
    (i : ℕ)
    → let unread = λ (now : StreamStates × Host). length (now.1.1 (owner i) i).seen.inbox in
      unread at_start < 9
      × (unread run_to_1 < 9)
      × (unread run_to_2 < 9)
      × (unread run_to_3 < 9)
      × (unread run_to_4 < 9)
unfolding handle_event read_request with_state read_loop after_recv parse_header respond after_round
    try_send_response send_loop after_send is_some try_from from_be_bytes update recv send close
    insert on_cells pop run_to_1 run_to_2 run_to_3 run_to_4
few i = (ground arith, ground arith, ground arith, ground arith, ground arith)

-- Behind the four events each client has got the three zeros that it takes.
sent_both :
    let outbox = λ (c i : ℕ). (run_to_4.1.1 c i).seen.outbox in
    (outbox 1 0 ≡ 0 ∷ 0 ∷ 0 ∷ []) × (outbox 2 4 ≡ 0 ∷ 0 ∷ 0 ∷ [])
unfolding handle_event read_request with_state read_loop after_recv parse_header respond after_round
    try_send_response send_loop after_send is_some try_from from_be_bytes update recv send close
    insert on_cells pop run_to_1 run_to_2 run_to_3 run_to_4
sent_both = (refl, refl)

stages : (now : StreamStates × Host) → IsOnWay now → IsStage now
unfolding handle_event read_request with_state read_loop after_recv parse_header respond after_round
    try_send_response send_loop after_send is_some try_from from_be_bytes update recv send close
    insert on_cells pop run_to_1 run_to_2 run_to_3 run_to_4
stages =
    on_way IsStage (stage 1 (new_stream 0) _ _ _ run_to_1 refl way_1 (λ i. (few i).0) (refl, refl))
      (stage 1 (recv_stream_readable 0) _ _ _ run_to_2 refl way_2 (λ i. (few i).1) refl)
      (stage 2 (new_stream 4) _ _ _ run_to_3 refl way_3 (λ i. (few i).2) (refl, refl))
      (stage 2 (recv_stream_readable 4) _ _ _ run_to_4 refl way_4 (λ i. (few i).3) refl)
      (record { few = λ i. (few i).4; moves = λ c head. cc })

pub queued-IsServed : IsServed queued-IsTransport owner 9 IsOnWay
unfolding queued-IsTransport
queued-IsServed = record {
  announced =
      λ c states w (r, way) head. ((stages (states, w) way).moves c {after = at_start} head).0;
  fits = λ states w way. (stages (states, w) way).few;
  polled = λ c states w way head. rw (pop-eq_none c w.0 head) way;
  handled = λ c states w (r, way) head e. ((stages (states, w) way).moves c head).1 e;
}
