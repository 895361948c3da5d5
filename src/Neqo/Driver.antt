-- ===== src/Neqo/Driver.antt =====
-- What the client of iut/neqo uses of a connection of neqo-transport, of its socket and of tokio.
use nesquic.Prelude.{
  ℕ, ◌≤◌, ◌≡◌, Bool, true, Option, none, some, List, ◌++◌, length, take, ◌||◌, [], false,
}

-- `ConnectionEvent`, by the cases that the client tells apart. A flag says whether the reason of a
-- close is an error.
pub data ClientEvent : Type 0 where
  authentication_needed : ClientEvent
  -- `State::Connected` and `State::Confirmed`
  connected : ClientEvent
  -- `State::Closing` and `State::Draining`
  closing : Bool → ClientEvent
  closed : Bool → ClientEvent
  recv_stream_readable : ℕ → ClientEvent
  other : ClientEvent

-- `OutputBatch`; a callback asks to be called after some time.
pub data Output (Batch : Type 0) : Type 0 where
  datagram_batch : Batch → Output Batch
  callback : ℕ → Output Batch
  nothing : Output Batch

-- `io::Result`, with the one kind of error that the code tells apart.
pub data IoResult (A : Type 0) : Type 0 where
  done : A → IoResult A
  would_block : IoResult A
  failed : IoResult A

-- The branch that `tokio::select!` takes: the socket's readiness, or its error, or the timer.
pub data Wake : Type 0 where
  readable : Option (Unit {0}) → Wake
  timer : Wake

-- A call returns `none` for `Err`, and the state of everything after it.
pub record Driver : Type 1 where
  pub World : Type 0
  pub Batch : Type 0
  pub Datagrams : Type 0
  pub next_event : World → Option ClientEvent × World
  pub authenticated : World → World
  pub stream_create : World → Option ℕ × World
  pub stream_send : ℕ → List ℕ → World → Option ℕ × World
  pub stream_close_send : ℕ → World → Option (Unit {0}) × World
  -- the bytes that are read into a buffer of the given size, and whether the stream ends there
  pub stream_recv : ℕ → ℕ → World → Option (List ℕ × Bool) × World
  pub process_multiple_output : World → Output Batch × World
  pub has_events : World → Bool
  pub process_multiple_input : Datagrams → World → World
  -- `neqo_udp::send_inner` and `recv_inner` on the socket
  pub send_inner : Batch → World → IoResult (Unit {0}) × World
  pub recv_inner : World → IoResult Datagrams × World
  pub writable : World → Option (Unit {0}) × World
  -- waits for the socket, and for the timer if there is one
  pub select : Option ℕ → World → Wake × World

-- What an observer sees of a stream: what was sent on it and whether that was closed, what was read
-- and whether the end was.
pub record View : Type 0 where
  pub sent : List ℕ
  pub closed : Bool
  pub read : List ℕ
  pub ended : Bool

abbrev pub fresh : View
fresh = record { sent = []; closed = false; read = []; ended = false }

abbrev pub Sent : List ℕ → View → Option ℕ → View → Type 0
Sent bytes v none v' = Unit
Sent bytes v (some n) v' = (n ≤ length bytes) × (v' ≡ record v { sent = v.sent ++ take n bytes })

abbrev pub Closed : View → Option (Unit {0}) → View → Type 0
Closed v none v' = Unit
Closed v (some _) v' = v' ≡ record v { closed = true }

abbrev pub Received : View → Option (List ℕ × Bool) → View → Type 0
Received v none v' = v' ≡ v
Received v (some (bytes, fin)) v' = v' ≡ record v { read = v.read ++ bytes; ended = v.ended || fin }

module _ {W : Type 0} (view : W → ℕ → View) where
  abbrev pub Created : W → Option ℕ → W → Type 0
  Created w none w' = Unit
  Created w (some i) w' = view w' i ≡ fresh

-- The documented behaviour: the calls on a stream do what their names say to its view, and no other
-- call touches a stream.
pub record IsDriver (d : Driver) : Type 1 where
  pub view : d.World → ℕ → View
  pub create_law : (w : d.World) → Created view w (d.stream_create w).0 (d.stream_create w).1
  pub send_law :
      (i : ℕ) (bytes : List ℕ) (w : d.World)
      → Sent bytes (view w i) (d.stream_send i bytes w).0 (view (d.stream_send i bytes w).1 i)
  pub close_law :
      (i : ℕ) (w : d.World)
      → Closed (view w i) (d.stream_close_send i w).0 (view (d.stream_close_send i w).1 i)
  pub recv_law :
      (i n : ℕ) (w : d.World)
      → Received (view w i) (d.stream_recv i n w).0 (view (d.stream_recv i n w).1 i)
  pub event_frame : (w : d.World) (i : ℕ) → view (d.next_event w).1 i ≡ view w i
  pub output_frame : (w : d.World) (i : ℕ) → view (d.process_multiple_output w).1 i ≡ view w i
  pub input_frame :
      (x : d.Datagrams) (w : d.World) (i : ℕ) → view (d.process_multiple_input x w) i ≡ view w i
  pub send_inner_frame :
      (x : d.Batch) (w : d.World) (i : ℕ) → view (d.send_inner x w).1 i ≡ view w i
  pub recv_inner_frame : (w : d.World) (i : ℕ) → view (d.recv_inner w).1 i ≡ view w i
  pub writable_frame : (w : d.World) (i : ℕ) → view (d.writable w).1 i ≡ view w i
  pub select_frame : (t : Option ℕ) (w : d.World) (i : ℕ) → view (d.select t w).1 i ≡ view w i
