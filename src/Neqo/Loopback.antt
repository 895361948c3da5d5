-- ===== src/Neqo/Loopback.antt =====
-- A driver in memory for tests: one stream, whose response comes in packets, one for each wait.
use nesquic.Prelude.{
  ℕ, zero, suc, ◌≡◌, refl, Bool, List, Option, none, some, true, ◌∷◌, [], arith, false, length,
  take-all, ◌++◌, ◌||◌, not,
}
use nesquic.Neqo.Driver.{
  Driver, IsDriver, Closed, Received, View, ClientEvent, IoResult, Sent, fresh, done, would_block,
  nothing, recv_stream_readable, readable,
}

pub record Host : Type 0 where
  pub queue : List ClientEvent
  -- the packets that are still to come, and whether one is there
  pub network : List (List ℕ)
  pub ready : Bool
  pub inbox : List ℕ
  pub seen : View

abbrev tail : List (List ℕ) → List (List ℕ)
tail [] = []
tail (x ∷ xs) = xs

abbrev pop : List ClientEvent → Host → Option ClientEvent × Host
pop [] w = (none, w)
pop (e ∷ es) w = (some e, record w { queue = es })

abbrev is_empty : {A : Type 0} → List A → Bool
is_empty [] = true
is_empty (x ∷ xs) = false

abbrev packet : Bool → List (List ℕ) → Host → IoResult (List ℕ) × Host
packet true (x ∷ xs) w = (done x, record w { ready = false; network = xs })
packet true [] w = (would_block, w)
packet false xs w = (would_block, w)

-- The other streams are not used.
abbrev on_stream : {A : Type 0} → ℕ → Host → Option A × Host → Option A × Host
on_stream zero w r = r
on_stream (suc i) w r = (none, w)

abbrev pub loopback : Driver
loopback = record {
  World = Host;
  Batch = Unit {0};
  Datagrams = List ℕ;
  next_event = λ w. pop w.queue w;
  authenticated = λ w. w;
  stream_create = λ w. (some 0, record w { seen = fresh });
  stream_send = λ i bytes w.
      on_stream i w
        (some (length bytes), record w { seen = record w.seen { sent = w.seen.sent ++ bytes } });
  stream_close_send =
      λ i w. on_stream i w (some tt, record w { seen = record w.seen { closed = true } });
  stream_recv = λ i n w. on_stream i w (
    some (w.inbox, is_empty w.network),
    record w {
      inbox = [];
      seen = record w.seen {
        read = w.seen.read ++ w.inbox;
        ended = w.seen.ended || is_empty w.network;
      };
    },
  );
  process_multiple_output = λ w. (nothing, w);
  has_events = λ w. not (is_empty w.queue);
  process_multiple_input =
      λ x w. record w { inbox = w.inbox ++ x; queue = w.queue ++ (recv_stream_readable 0 ∷ []) };
  send_inner = λ x w. (done tt, w);
  recv_inner = λ w. packet w.ready w.network w;
  writable = λ w. (some tt, w);
  select = λ t w. (readable (some tt), record w { ready = true });
}

abbrev view_of : Host → ℕ → View
view_of w zero = w.seen
view_of w (suc i) = fresh

pub pop-view : (es : List ClientEvent) (w : Host) (i : ℕ) → view_of (pop es w).1 i ≡ view_of w i
pop-view [] w i = refl
pop-view (e ∷ es) w zero = refl
pop-view (e ∷ es) w (suc i) = refl

pub packet-view :
    (b : Bool) (xs : List (List ℕ)) (w : Host) (i : ℕ) → view_of (packet b xs w).1 i ≡ view_of w i
packet-view true (x ∷ xs) w zero = refl
packet-view true (x ∷ xs) w (suc i) = refl
packet-view true [] w i = refl
packet-view false xs w i = refl

pub send-Sent :
    (i : ℕ) (bytes : List ℕ) (w : Host)
    → Sent bytes
        (view_of w i)
        (loopback.stream_send i bytes w).0
        (view_of (loopback.stream_send i bytes w).1 i)
send-Sent zero bytes w = (omega arith, rw (take-all (length bytes) bytes (omega arith)) refl)
send-Sent (suc i) bytes w = tt

pub close-Closed :
    (i : ℕ) (w : Host)
    → Closed
        (view_of w i)
        (loopback.stream_close_send i w).0
        (view_of (loopback.stream_close_send i w).1 i)
close-Closed zero w = refl
close-Closed (suc i) w = tt

pub recv-Received :
    (i n : ℕ) (w : Host)
    → Received
        (view_of w i)
        (loopback.stream_recv i n w).0
        (view_of (loopback.stream_recv i n w).1 i)
recv-Received zero n w = refl
recv-Received (suc i) n w = refl

abbrev pub cases : (P : ℕ → Type 0) → P 0 → ((i : ℕ) → P (suc i)) → (i : ℕ) → P i
cases P z s zero = z
cases P z s (suc i) = s i

abbrev pub loopback-IsDriver : IsDriver loopback
loopback-IsDriver = record {
  view = view_of;
  create_law = λ w. refl;
  send_law = send-Sent;
  close_law = close-Closed;
  recv_law = recv-Received;
  event_frame = λ w. pop-view w.queue w;
  output_frame = λ w i. refl;
  input_frame = λ x w. cases _ refl (λ i. refl);
  send_inner_frame = λ x w i. refl;
  recv_inner_frame = λ w. packet-view w.ready w.network w;
  writable_frame = λ w i. refl;
  select_frame = λ t w. cases _ refl (λ i. refl);
}
