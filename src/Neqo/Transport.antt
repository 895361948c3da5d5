-- ===== src/Neqo/Transport.antt =====
-- What iut/neqo uses of the crate neqo-transport: the calls that it makes on the connections of a
-- `neqo_transport::server::Server`, and the documented behaviour that the server relies on.
use nesquic.Prelude.{
  ℕ, ◌≤◌, ◌≡◌, ◌≢◌, Bool, true, false, Option, none, some, List, ◌++◌, length, take, ◌⊎◌,
}

-- `ConnectionEvent`, by the cases that the server tells apart.
pub data ConnectionEvent : Type 0 where
  new_stream : ℕ → ConnectionEvent
  recv_stream_readable : ℕ → ConnectionEvent
  send_stream_writable : ℕ → ConnectionEvent
  connected : ConnectionEvent
  other : ConnectionEvent

-- A connection and a stream are known by numbers. A call returns `none` for `Err`, and the state of
-- the endpoint after it.
pub record Transport : Type 1 where
  pub World : Type 0
  pub is_client_initiated : ℕ → Bool
  pub is_bidi : ℕ → Bool
  pub active_connections : World → List ℕ
  pub next_event : ℕ → World → Option ConnectionEvent × World
  -- the bytes that are read into a buffer of the given size, and whether the stream ends there
  pub stream_recv : ℕ → ℕ → ℕ → World → Option (List ℕ × Bool) × World
  -- how many of the bytes are taken
  pub stream_send : ℕ → ℕ → List ℕ → World → Option ℕ × World
  pub stream_close_send : ℕ → ℕ → World → Option (Unit {0}) × World
  pub send_ticket : ℕ → World → Option (Unit {0}) × World

-- What an observer sees of a stream: the bytes that have arrived, those of them that are not read
-- yet, the bytes that were taken for sending, whether the send side takes data, and whether it was
-- closed with all its data.
pub record View : Type 0 where
  pub arrived : List ℕ
  pub inbox : List ℕ
  pub outbox : List ℕ
  pub can_send : Bool
  pub finished : Bool

-- `stream_recv` hands out the unread bytes in order.
abbrev pub Received : ℕ → View → Option (List ℕ × Bool) → View → Type 0
Received size v none v' = v' ≡ v
Received size v (some (bytes, fin)) v' =
    (length bytes ≤ size) × (v.inbox ≡ bytes ++ v'.inbox) × (v' ≡ record v { inbox = v'.inbox })

-- `stream_send` fails on a send side that is closed or reset, and otherwise takes a prefix.
abbrev pub Sent : List ℕ → View → Option ℕ → View → Type 0
Sent bytes v none v' = (v.can_send ≡ false) × (v' ≡ v)
Sent bytes v (some n) v' =
    (v.can_send ≡ true) × (n ≤ length bytes) × (v' ≡ record v { outbox = v.outbox ++ take n bytes })

-- `stream_close_send` closes a send side that is open, and does nothing to one that is not.
abbrev pub Closed : View → View → Type 0
Closed v v' =
    (v.can_send ≡ true → v' ≡ record v { can_send = false; finished = true })
    × (v.can_send ≡ false → v' ≡ v)

pub record IsTransport (t : Transport) : Type 1 where
  pub view : ℕ → ℕ → t.World → View
  pub recv_law :
      (c i n : ℕ) (w : t.World)
      → Received n (view c i w) (t.stream_recv c i n w).0 (view c i (t.stream_recv c i n w).1)
  pub send_law :
      (c i : ℕ) (bytes : List ℕ) (w : t.World)
      → Sent bytes
          (view c i w)
          (t.stream_send c i bytes w).0
          (view c i (t.stream_send c i bytes w).1)
  pub close_law :
      (c i : ℕ) (w : t.World) → Closed (view c i w) (view c i (t.stream_close_send c i w).1)
  -- a call on one stream leaves the others alone, and no other call touches a stream
  pub recv_frame :
      (c i n d j : ℕ) (w : t.World)
      → (c ≢ d) ⊎ (i ≢ j)
      → view d j (t.stream_recv c i n w).1 ≡ view d j w
  pub send_frame :
      (c i : ℕ) (bytes : List ℕ) (d j : ℕ) (w : t.World)
      → (c ≢ d) ⊎ (i ≢ j)
      → view d j (t.stream_send c i bytes w).1 ≡ view d j w
  pub close_frame :
      (c i d j : ℕ) (w : t.World)
      → (c ≢ d) ⊎ (i ≢ j)
      → view d j (t.stream_close_send c i w).1 ≡ view d j w
  pub event_frame : (c d j : ℕ) (w : t.World) → view d j (t.next_event c w).1 ≡ view d j w
  pub ticket_frame : (c d j : ℕ) (w : t.World) → view d j (t.send_ticket c w).1 ≡ view d j w
