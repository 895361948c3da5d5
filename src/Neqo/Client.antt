-- ===== src/Neqo/Client.antt =====
-- The client of iut/neqo/src/client.rs. The connection and the socket are parts of the state of the
-- driver, so of the fields that hold them it is known whether they are set.
pub mod Events
pub mod Response
pub mod Run
use nesquic.Prelude.{
  ℕ, zero, suc, Bool, List, Option, Outcome, String, false, if◌then◌else◌, ok, stuck, err, length,
  ltb, some, true, ◌*◌, ◌==◌, none, panic, ◌+◌, ◌^◌, ◌≡◌, refl,
}
use nesquic.Prelude.Tasks.{Task, pure, or_fail, fail, lift, ◌>>=◌, require}
use nesquic.Neqo.Driver.{
  Driver, ClientEvent, authentication_needed, connected, closing, closed, recv_stream_readable,
  other,
}
use nesquic.Neqo.Drive.{beside, drive_until}
use nesquic.Bin.{ClientArgs}
use nesquic.Perf.Blob.{Request, parse_request, to_bytes, len}
use nesquic.Net.{SocketAddr}

pub record Client : Type 0 where
  pub args : ClientArgs
  pub conn : Bool
  pub socket : Bool
  pub local_addr : Option SocketAddr

-- The variables that the closure of `run` holds.
pub record Progress : Type 0 where
  pub received : ℕ
  pub response_done : Bool

abbrev pub require_set : {W : Type 0} → Bool → String → Task W (Unit {0})
require_set false e = fail e
require_set true e = pure tt

module _ (d : Driver) where
  open d use {
    World, next_event, authenticated, stream_create, stream_send, stream_close_send, stream_recv,
  }

  -- `while let Some(event) = conn.next_event()`
  unfoldable pub take_event : Task World (Option ClientEvent)
  take_event w = (ok (next_event w).0, (next_event w).1)

  module _ {S : Type 0} where
    unfoldable pub after_event :
        Task (World × S) (Unit {0})
        → (ClientEvent → Task (World × S) (Unit {0}))
        → Option ClientEvent
        → Task (World × S) (Unit {0})
    after_event again on_event none = pure tt
    after_event again on_event (some e) = do _ ← on_event e; again

    unfoldable pub drain_events :
        ℕ → (ClientEvent → Task (World × S) (Unit {0})) → Task (World × S) (Unit {0})
    drain_events zero on_event = lift stuck
    drain_events (suc fuel) on_event = do
      e ← beside d take_event
      after_event (drain_events fuel on_event) on_event e

  -- The body of the closure of `connect`, which holds `connected`.
  unfoldable pub refuse : Bool → String → Task (World × Bool) (Unit {0})
  refuse is_error e = if is_error then fail e else pure tt

  unfoldable pub on_connect : ClientEvent → Task (World × Bool) (Unit {0})
  on_connect authentication_needed = λ (w, seen). (ok tt, (authenticated w, seen))
  on_connect connected = λ (w, seen). (ok tt, (w, true))
  on_connect (closing is_error) = refuse is_error "connection closing with error"
  on_connect (closed is_error) = refuse is_error "connection closed with error"
  on_connect (recv_stream_readable sid) = pure tt
  on_connect other = pure tt

  unfoldable pub check_connected : ℕ → Task (World × Bool) Bool
  check_connected fuel = do _ ← drain_events fuel on_connect; λ (w, seen). (ok seen, (w, seen))

  -- The body of the closure of `run`. `received += n` is checked by the debug profile.
  unfoldable pub add_received : ℕ → Task (World × Progress) (Unit {0})
  add_received n (w, p) =
      if ltb (p.received + n) (2 ^ 64)
      then (ok tt, (w, record p { received = p.received + n }))
      else (panic, (w, p))

  unfoldable pub set_done : Task (World × Progress) (Unit {0})
  set_done (w, p) = (ok tt, (w, record p { response_done = true }))

  unfoldable pub after_read :
      Task (World × Progress) (Unit {0}) → List ℕ × Bool → Task (World × Progress) (Unit {0})
  after_read again (bytes, fin) = do
    _ ← add_received (length bytes)
    if fin then set_done else if length bytes == 0 then pure tt else again

  unfoldable pub read_response : ℕ → ℕ → Task (World × Progress) (Unit {0})
  read_response zero i = lift stuck
  read_response (suc fuel) i = do
    r ← beside d (or_fail (stream_recv i (32 * 1024)) "stream_recv")
    after_read (read_response fuel i) r

  unfoldable pub on_response : ℕ → ℕ → ClientEvent → Task (World × Progress) (Unit {0})
  on_response fuel i (recv_stream_readable sid) = if sid == i then read_response fuel i else pure tt
  on_response fuel i (closed true) = fail "connection closed unexpectedly"
  on_response fuel i (closed false) = pure tt
  on_response fuel i (closing is_error) = pure tt
  on_response fuel i authentication_needed = pure tt
  on_response fuel i connected = pure tt
  on_response fuel i other = pure tt

  unfoldable pub check_response : ℕ → ℕ → Task (World × Progress) Bool
  check_response fuel i = do
    _ ← drain_events fuel (on_response fuel i)
    λ (w, p). (ok p.response_done, (w, p))

  -- Runs a closure's task and returns the variables that it held.
  unfoldable pub returning : {S : Type 0} → Outcome (Unit {0}) × (World × S) → Outcome S × World
  returning (ok _, (w, s)) = (ok s, w)
  returning (err e, (w, s)) = (err e, w)
  returning (panic, (w, s)) = (panic, w)
  returning (stuck, (w, s)) = (stuck, w)

  unfoldable pub receive : ℕ → ℕ → ℕ → Task World Progress
  receive rounds fuel i w = returning (
      drive_until d rounds fuel (check_response fuel i)
        (w, record { received = 0; response_done = false }))

  -- What follows the sending of the request.
  unfoldable pub verify : Request → Progress → Task World (Unit {0})
  verify request p =
      if p.received == len request
      then pure tt
      else fail "received blob size different from requested blob size"

  unfoldable pub receive_and_verify : ℕ → ℕ → Request → ℕ → Task World (Unit {0})
  receive_and_verify rounds fuel request i = do p ← receive rounds fuel i; verify request p

  unfoldable pub close_and_receive : ℕ → ℕ → Request → ℕ → ℕ → Task World (Unit {0})
  close_and_receive rounds fuel request i sent = do
    _ ← require_set (sent == 8) "only sent a part of 8 request bytes"
    _ ← or_fail (stream_close_send i) "close send side"
    receive_and_verify rounds fuel request i

  unfoldable pub send_request : ℕ → ℕ → Request → ℕ → Task World (Unit {0})
  send_request rounds fuel request i = do
    sent ← or_fail (stream_send i (to_bytes request)) "send request"
    close_and_receive rounds fuel request i sent

  module _ (parse : String → Outcome ℕ) where
    unfoldable pub request_blob : ℕ → ℕ → String → Task World (Unit {0})
    request_blob rounds fuel blob = do
      request ← lift (parse_request parse blob)
      i ← or_fail stream_create "create bidirectional stream"
      send_request rounds fuel request i

    unfoldable pub run : ℕ → ℕ → Client → Task World (Unit {0})
    run rounds fuel client = do
      _ ← require_set client.conn "not connected"
      _ ← require_set client.socket "not connected"
      _ ← require client.local_addr "not connected"
      request_blob rounds fuel client.args.blob

    -- A client whose fields are set goes on to the request.
    pub run-set :
        (rounds fuel : ℕ) (client : Client) (addr : SocketAddr) (w : World)
        → client.conn ≡ true
        → client.socket ≡ true
        → client.local_addr ≡ some addr
        → run rounds fuel client w ≡ request_blob rounds fuel client.args.blob w
    unfolding run
    run-set rounds fuel client addr w hc hs ha =
        go client.conn client.socket client.local_addr hc hs ha
      where
        go :
            (c s : Bool) (a : Option SocketAddr)
            → c ≡ true
            → s ≡ true
            → a ≡ some addr
            → (require_set c "not connected" >>= λ _. require_set s "not connected" >>= λ _.
                  require a "not connected" >>= λ _. request_blob rounds fuel client.args.blob)
                w
              ≡ request_blob rounds fuel client.args.blob w
        go c s a hc hs ha = rw (hc, hs, ha) refl
