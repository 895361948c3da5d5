-- ===== src/Neqo/Server/Tests.antt =====
-- Runs of the server over the transport in memory, and the theorems at them.
use nesquic.Prelude.{
  ℕ, ◌≡◌, refl, true, false, some, List, [], ◌∷◌, if◌then◌else◌, value_or, ◌==◌, Returns, length,
  replicate, ◌≤◌, arith, none, ◌<◌, ap, ◌>>=◌, ok, inl, min,
}
use nesquic.Perf.Blob.{try_from}
use nesquic.Perf.Bytes.{from_be_bytes}
use nesquic.Neqo.Transport.{View, recv_stream_readable, send_stream_writable}
use nesquic.Neqo.Memory.{Cells, update, recv, send, close, memory, memory-IsTransport}
use nesquic.Neqo.Server.{
  StreamStates, new, insert, empty, handle_event, read_request, with_state, read_loop, after_recv,
  parse_header, respond, after_round, try_send_response, send_loop, after_send, is_some,
  StreamState, new_stream,
}
use nesquic.Neqo.Server.System.{IsSoundStream, IsSound, idle, handle_event-Returns}
use nesquic.Neqo.Server.Sending.{IsAnswering}
use nesquic.Neqo.Server.Responses.{
  Reach, finished-response, next, Reach-IsSound, handles, here, network,
}
use nesquic.Neqo.Server.Reading.{size_of}
use nesquic.Neqo.Server.Finishing.Writable.{IsWritable}
use nesquic.Neqo.Server.Finishing.Rounds.{Rounds, starts, passes, writes, Rounds-finished}
use nesquic.Neqo.Server.Shared.{writable_times, response-lost}

abbrev five : List ℕ
five = 0 ∷ 0 ∷ 0 ∷ 0 ∷ 0 ∷ 0 ∷ 0 ∷ 5 ∷ []

abbrev blank : View
blank = record { arrived = []; inbox = []; outbox = []; can_send = false; finished = false }

-- A request for five bytes has arrived on stream 0, which takes `credit` bytes.
abbrev requested : ℕ → Cells
requested credit c i =
    if i == 0
    then record {
      seen = record blank { arrived = five; inbox = five; can_send = true };
      credit = credit;
    }
    else record { seen = blank; credit = 0 }

-- Stream 0 is used by connection 1, and the others by connection 2.
abbrev owner : ℕ → ℕ
owner i = if i == 0 then 1 else 2

known : StreamStates
known = insert 0 new empty

-- The server reads the request and answers it.
served : ℕ → StreamStates × Cells
unfolding known
served credit =
    value_or (known, requested credit)
      (handle_event memory 9 1 (recv_stream_readable 0) known (requested credit))

-- With credit for the whole response the stream is finished.
served_whole : ((served 5).1 1 0).seen ≡ record {
  arrived = five;
  inbox = [];
  outbox = 0 ∷ 0 ∷ 0 ∷ 0 ∷ 0 ∷ [];
  can_send = false;
  finished = true;
}
unfolding served insert handle_event read_request with_state read_loop after_recv parse_header
    respond after_round try_send_response send_loop after_send is_some try_from from_be_bytes update
    recv send close
served_whole = refl

-- With less credit the rest waits.
served_part : ((served 3).0 0) ≡ some (record { read_buf = five; write_remaining = some 2 })
unfolding served insert handle_event read_request with_state read_loop after_recv parse_header
    respond after_round try_send_response send_loop after_send is_some try_from from_be_bytes update
    recv send close
served_part = refl

fresh : (credit i : ℕ) → IsSoundStream none (requested credit (owner i) i).seen
fresh credit i = ground arith

unread : (credit i : ℕ) → length (requested credit (owner i) i).seen.inbox < 9
unread credit i = ground arith

announced : (credit : ℕ) → Reach memory-IsTransport owner (known, requested credit)
unfolding known handle_event
announced credit =
    next (here (requested credit) (fresh credit))
      (handles 1 9 (new_stream 0) (refl, refl) (unread credit) refl)

reached : Reach memory-IsTransport owner (served 5)
unfolding served insert handle_event read_request with_state read_loop after_recv parse_header
    respond after_round try_send_response send_loop after_send is_some try_from from_be_bytes update
    recv send close
reached = next (announced 5) (handles 1 9 (recv_stream_readable 0) refl (unread 5) refl)

finished-response_example :
    (8 ≤ length ((served 5).1 1 0).seen.arrived)
    × (((served 5).1 1 0).seen.outbox ≡ replicate (size_of ((served 5).1 1 0).seen.arrived) 0)
finished-response_example =
    finished-response memory-IsTransport owner 0 reached
      (ap (λ (v : View). v.finished) served_whole)

handle_event-Returns_example :
    Returns
      (handle_event memory 9 1 (recv_stream_readable 0) known (requested 3))
      (IsSound memory-IsTransport owner)
handle_event-Returns_example =
    handle_event-Returns memory-IsTransport owner 1 9 (recv_stream_readable 0) known (requested 3)
      refl (unread 3) (Reach-IsSound memory-IsTransport owner (announced 3))

abbrev owing : StreamState
owing = record { read_buf = five; write_remaining = some 5 }

owing-IsAnswering : IsAnswering 5 (some 5) (requested 3 1 0).seen
owing-IsAnswering = record {
  zeros = refl;
  within = omega arith;
  complete = λ e. cc;
  pending = λ on. (5, refl, refl);
}

response-lost_example :
    (after : StreamStates) × ((do
      (states', w') ← handle_event memory 9 2 (new_stream 0) (insert 0 owing empty) (requested 3)
      writable_times memory 9 4 1 0 states' w')
      ≡ ok (after, requested 3))
    × (after 0 ≡ some new)
response-lost_example = response-lost memory 9 4 1 2 0 (insert 0 owing empty) (requested 3)

-- Three bytes are sent and two are left when the flow control allows two more.
abbrev allowed : Cells
allowed = update 1 0 (record ((served 3).1 1 0) { credit = 2 }) (served 3).1

reached_part : Reach memory-IsTransport owner (served 3)
unfolding served insert handle_event read_request with_state read_loop after_recv parse_header
    respond after_round try_send_response send_loop after_send is_some try_from from_be_bytes update
    recv send close
reached_part = next (announced 3) (handles 1 9 (recv_stream_readable 0) refl (unread 3) refl)

same_views : (j : ℕ) → (allowed (owner j) j).seen ≡ ((served 3).1 (owner j) j).seen
unfolding update
same_views j = ground arith

told : StreamStates × Cells → StreamStates × Cells
told now = value_or now (handle_event memory 9 1 (send_stream_writable 0) now.0 now.1)

allowed-IsWritable : IsWritable memory-IsTransport 1 0 allowed
unfolding IsWritable served insert handle_event read_request with_state read_loop after_recv
    parse_header respond after_round try_send_response send_loop after_send is_some try_from
    from_be_bytes update recv send close
allowed-IsWritable bytes some_bytes on = (min 2 (length bytes), refl, omega arith)

closed-IsWritable :
    (w : Cells) → (w 1 0).seen.can_send ≡ false → IsWritable memory-IsTransport 1 0 w
unfolding IsWritable
closed-IsWritable w off bytes some_bytes on = cc

told_of : (w : Cells) → StreamStates × Cells
told_of w = told ((served 3).0, w)

quiet : (j : ℕ) → length (allowed (owner j) j).seen.inbox < 9
unfolding served insert handle_event read_request with_state read_loop after_recv parse_header
    respond after_round try_send_response send_loop after_send is_some try_from from_be_bytes update
    recv send close
quiet j = ground arith

quiet_once : (j : ℕ) → length ((told_of allowed).1 (owner j) j).seen.inbox < 9
unfolding told_of told served insert handle_event read_request with_state read_loop after_recv
    parse_header respond after_round try_send_response send_loop after_send is_some try_from
    from_be_bytes update recv send close
quiet_once j = ground arith

quiet_twice : (j : ℕ) → length ((told (told_of allowed)).1 (owner j) j).seen.inbox < 9
unfolding told_of told served insert handle_event read_request with_state read_loop after_recv
    parse_header respond after_round try_send_response send_loop after_send is_some try_from
    from_be_bytes update recv send close
quiet_twice j = ground arith

rounds : Rounds memory-IsTransport owner 0 (served 3) 3 (told (told (told_of allowed)))
unfolding told_of told served insert handle_event read_request with_state read_loop after_recv
    parse_header respond after_round try_send_response send_loop after_send is_some try_from
    from_be_bytes update recv send close
rounds =
    let more = passes starts (network {w' = allowed} (λ j. idle (same_views j))) (inl refl) in
    let once = writes 9 more allowed-IsWritable quiet refl in
    let twice = writes 9 once (closed-IsWritable _ refl) quiet_once refl in
    writes 9 twice (closed-IsWritable _ refl) quiet_twice refl

part_sent : ((served 3).1 1 0).seen ≡ record {
  arrived = five;
  inbox = [];
  outbox = 0 ∷ 0 ∷ 0 ∷ [];
  can_send = true;
  finished = false;
}
unfolding served insert handle_event read_request with_state read_loop after_recv parse_header
    respond after_round try_send_response send_loop after_send is_some try_from from_be_bytes update
    recv send close
part_sent = refl

Rounds-finished_example :
    ((told (told (told_of allowed))).1 1 0).seen.finished ≡ true
    × (((told (told (told_of allowed))).1 1 0).seen.outbox
        ≡ replicate (size_of ((served 3).1 1 0).seen.arrived) 0)
unfolding told_of told served insert handle_event read_request with_state read_loop after_recv
    parse_header respond after_round try_send_response send_loop after_send is_some try_from size_of
    from_be_bytes update recv send close
Rounds-finished_example =
    Rounds-finished memory-IsTransport owner 0 reached_part (omega arith) (inl refl) (omega arith)
      rounds
