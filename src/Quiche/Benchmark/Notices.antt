-- ===== src/Quiche/Benchmark/Notices.antt =====
-- When a client's application tells that a response is complete.
use nesquic.Prelude.{
  ℕ, suc, zero, ◌<◌, true, false, none, some, List, [], ◌∷◌, Outcome, ok, ◌≡◌, refl, Returns,
  Returns-bind, ◌∙◌, ==_iff, arith,
}
use nesquic.Quiche.Connection.{Connection, IsChannelled}
use nesquic.Quiche.Benchmark.{
  Benchmark, State, set, notified, complete, handle_recv, after_recv, read_stream, read_streams,
  process_reads, fresh_buf,
}

-- What is left of a response on a stream is read in `n` parts, from one state to another.
pub data Arrives (c : Connection) (i : ℕ) : ℕ → c.World → c.World → Type 0 where
  last :
      {w w' : c.World} {bytes : List ℕ}
      → c.stream_recv i w ≡ (some (bytes, true), w')
      → Arrives c i 1 w w'
  more :
      {n : ℕ} {w u w' : c.World} {bytes : List ℕ}
      → c.stream_recv i w ≡ (some (bytes, false), u)
      → Arrives c i n u w'
      → Arrives c i (suc n) w w'

module _ {c : Connection} (laws : IsChannelled c) where
  open c use {World, is_server, readable, stream_recv, notify}
  open laws use {recv_role}

  -- The receiver was sent to, and nobody waits for the stream any more.
  abbrev pub IsNotified : ℕ → World → State c → Type 0
  IsNotified i w s = (s.1.pending_req i ≡ none) × (s.2 ≡ w)

  complete_lem :
      (again : State c → Outcome (State c)) (i tx : ℕ) (buf : List ℕ) (b : Benchmark) (w w' : World)
      → b.pending_req i ≡ some tx
      → notify tx w ≡ (some tt, w')
      → complete c again i buf b w
        ≡ again (buf, record b { pending_req = set i none b.pending_req }, w')
  unfolding complete notified
  complete_lem again i tx buf b w w' waits tells = rw (complete, waits, tells) refl

  read_stream-IsNotified :
      (fuel i n tx : ℕ) (buf : List ℕ) (b : Benchmark) (w w1 w2 w3 : World)
      → Arrives c i n w w1
      → n < fuel
      → is_server w ≡ false
      → b.pending_req i ≡ some tx
      → notify tx w1 ≡ (some tt, w2)
      → stream_recv i w2 ≡ (none, w3)
      → Returns (read_stream c fuel i (buf, b, w)) (IsNotified i w3)
  unfolding read_stream after_recv handle_recv set
  read_stream-IsNotified zero i n tx buf b w w1 w2 w3 a enough client waits tells silent =
      absurd (omega arith)
  read_stream-IsNotified (suc zero) i n tx buf b w w1 w2 w3 (last e) enough client waits tells
        silent =
      absurd (omega arith)
  read_stream-IsNotified (suc (suc fuel)) i n tx buf b w w1 w2 w3 (last {bytes} e) enough client
        waits tells silent =
      let role : is_server w1 ≡ false = rw e at (recv_role i w ∙ client) in
      rw (e, role, complete_lem (read_stream c (suc fuel) i) i tx _ b w1 w2 waits tells, silent)
        (rw ((==_iff i i).1 refl) (refl, refl))
  read_stream-IsNotified (suc fuel) i n tx buf b w w1 w2 w3 (more {u} {bytes} e rest) enough client
        waits tells silent =
      let role : is_server u ≡ false = rw e at (recv_role i w ∙ client) in
      rw (e, role)
        (read_stream-IsNotified fuel i _ tx _ b u w1 w2 w3 rest (omega arith) role waits tells
          silent)

  -- On a client, when the rest of the response on the one readable stream arrives with its end, in
  -- however many parts and whatever they are, and with fuel above their number: the receiver that
  -- waits for the stream is sent to, once, after the last part, and nobody waits any more.
  pub process_reads-IsNotified :
      (fuel i n tx : ℕ) (b : Benchmark) (w w1 w2 w3 : World)
      → is_server w ≡ false
      → readable w ≡ i ∷ []
      → Arrives c i n w w1
      → n < fuel
      → b.pending_req i ≡ some tx
      → notify tx w1 ≡ (some tt, w2)
      → stream_recv i w2 ≡ (none, w3)
      → Returns (process_reads c fuel b w) (IsNotified i w3)
  unfolding process_reads read_streams
  process_reads-IsNotified fuel i n tx b w w1 w2 w3 client one a enough waits tells silent =
      rw one (
        Returns-bind (IsNotified i w3) (IsNotified i w3) (read_stream c fuel i (fresh_buf, b, w)) ok
          (read_stream-IsNotified fuel i n tx fresh_buf b w w1 w2 w3 a enough client waits tells
            silent)
          (λ s h. h))
