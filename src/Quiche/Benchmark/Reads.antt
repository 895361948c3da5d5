-- ===== src/Quiche/Benchmark/Reads.antt =====
-- What reading does to the responses of a server.
use nesquic.Quiche.Connection.{Connection, IsConnection, Received}
use nesquic.Prelude.{
  ℕ, List, length, length-replicate, replicate, ◌++◌, ◌≡◌, ◌≤◌, arith, drop, true, Outcome,
  length-append, some, take, ◌-◌, ◌<◌, Bool-cases, Returns, refl, suc, Option, ◌==◌, ◌∷◌, Bool, inl,
  zero, [], inr, ◌∙◌, Returns-bind, ◌*◌, none,
}
use nesquic.Quiche.Benchmark.{
  State, read_stream, set, Benchmark, store, after_recv, process_reads, read_streams, fresh_buf,
  handle_recv,
}
use nesquic.Perf.Bytes.{from_be_bytes}
use nesquic.Quiche.Benchmark.Writes.{rest}
use nesquic.Perf.Blob.Wire.{try_from-of_bytes, from_iter-whole}

length-drop : (n : ℕ) (xs : List ℕ) → length (drop n xs) ≡ length xs - n
length-drop zero xs = omega arith
length-drop (suc n) [] = omega arith
length-drop (suc n) (x ∷ xs) = let rec_eq = length-drop n xs in omega arith

-- What a read leaves in the buffer: the bytes read, and behind them what was there.
abbrev pub overlay : List ℕ → List ℕ → List ℕ
overlay bytes buf = bytes ++ drop (length bytes) buf

pub length-overlay : (bytes buf : List ℕ) → 8 ≤ length buf → 8 ≤ length (overlay bytes buf)
length-overlay bytes buf h =
    let whole = length-append bytes (drop (length bytes) buf) in
    let behind = length-drop (length bytes) buf in omega arith

-- A response that is nothing but zeros.
abbrev pub IsZeros : List ℕ → Type 0
IsZeros bytes = bytes ≡ replicate (length bytes) 0

-- The response to what the buffer holds.
abbrev pub response : List ℕ → List ℕ
response buf = replicate (from_be_bytes (take 8 buf)) 0

response-IsZeros : (buf : List ℕ) → IsZeros (response buf)
response-IsZeros buf = rw (length-replicate {A = ℕ} (from_be_bytes (take 8 buf)) 0) refl

module _ (c : Connection) where
  pub store_lem :
      (again : State c → Outcome (State c)) (i : ℕ) (buf : List ℕ) (b : Benchmark) (w : c.World)
      → 8 ≤ length buf
      → store c again i buf b w
        ≡ again (buf, record b { pending_res = set i (some (response buf)) b.pending_res }, w)
  unfolding store
  store_lem again i buf b w h =
      rw (try_from-of_bytes buf h, from_iter-whole (from_be_bytes (take 8 buf))) refl

quiet_trans :
    {a b k : ℕ} {x y z : List ℕ} → (b ≤ a) × (y ≡ x) → (a ≤ k) × (x ≡ z) → (b ≤ k) × (y ≡ z)
quiet_trans (less, same) (less', same') = (omega arith, same ∙ same')

module _ {c : Connection} (laws : IsConnection c) where
  open c use {World, is_server, readable, stream_recv}
  open laws use {unread, outbox, role_law, recv_law}

  -- What holds in the loops of `process_reads`, begun with `start`.
  pub record IsReading (start : World) (s : State c) : Type 0 where
    pub full : 8 ≤ length s.0
    pub server : is_server s.2 ≡ true
    pub zeros : (j : ℕ) → IsZeros (rest (s.1.pending_res j))
    pub quiet : (j : ℕ) → (unread s.2 j ≤ unread start j) × (outbox s.2 j ≡ outbox start j)

  stored :
      (start : World) (i : ℕ) (buf : List ℕ) (b : Benchmark) (w : World)
      → IsReading start (buf, b, w)
      → IsReading start
          (buf, record b { pending_res = set i (some (response buf)) b.pending_res }, w)
  unfolding set
  stored start i buf b w h = record {
    full = h.full;
    server = h.server;
    zeros = λ j. elim (Bool-cases (j == i)) [
      | inl same ↦ rw same (response-IsZeros buf)
      | inr differs ↦ rw differs (h.zeros j)
    ];
    quiet = h.quiet;
  }

  -- One round of the loop, where the rounds that follow a successful read are known.
  after_recv-IsReading :
      (again : State c → Outcome (State c)) (i : ℕ) (start : World) (buf : List ℕ) (b : Benchmark)
      (w : World) (result : Option (List ℕ × Bool)) (w' : World)
      → ((s : State c)
          → unread s.2 i < unread w i
          → IsReading start s
          → Returns (again s) (IsReading start))
      → IsReading start (buf, b, w)
      → Received unread outbox i w result w'
      → is_server w' ≡ is_server w
      → Returns (after_recv c again i buf b (result, w')) (IsReading start)
  unfolding after_recv handle_recv
  after_recv-IsReading again i start buf b w none w' continued h law role = record {
    full = h.full;
    server = role ∙ h.server;
    zeros = h.zeros;
    quiet = λ j. quiet_trans (law j) (h.quiet j);
  }
  after_recv-IsReading again i start buf b w (some (bytes, done)) w' continued h (less, law) role =
      let filled : IsReading start (overlay bytes buf, b, w') = record {
        full = length-overlay bytes buf h.full;
        server = role ∙ h.server;
        zeros = h.zeros;
        quiet = λ j. quiet_trans (law j) (h.quiet j);
      } in
      rw (role ∙ h.server, store_lem c again i (overlay bytes buf) b w' filled.full)
        (continued _ less (stored start i (overlay bytes buf) b w' filled))

  -- More fuel than is unread is enough for a stream.
  read_stream-IsReading :
      (fuel i : ℕ) (start : World) (buf : List ℕ) (b : Benchmark) (w : World)
      → unread w i < fuel
      → IsReading start (buf, b, w)
      → Returns (read_stream c fuel i (buf, b, w)) (IsReading start)
  unfolding read_stream
  read_stream-IsReading zero i start buf b w enough h = absurd (omega arith)
  read_stream-IsReading (suc fuel) i start buf b w enough h =
      after_recv-IsReading (read_stream c fuel i) i start buf b w (stream_recv i w).0
        (stream_recv i w).1
        (λ s less h'. read_stream-IsReading fuel i start s.0 s.1 s.2 (omega arith) h') h
        (recv_law i w) (role_law i w)

  read_streams-IsReading :
      (fuel : ℕ) (streams : List ℕ) (start : World) (s : State c)
      → ((j : ℕ) → unread start j < fuel)
      → IsReading start s
      → Returns (read_streams c fuel streams s) (IsReading start)
  unfolding read_streams
  read_streams-IsReading fuel [] start s enough h = h
  read_streams-IsReading fuel (i ∷ streams) start s enough h =
      let less = enough i in
      let now = (h.quiet i).0 in
      Returns-bind (IsReading start) (IsReading start) (read_stream c fuel i s)
        (read_streams c fuel streams)
        (read_stream-IsReading fuel i start s.0 s.1 s.2 (omega arith) h)
        (λ s' h'. read_streams-IsReading fuel streams start s' enough h')

  -- On a server, with fuel above what is unread on each stream, `process_reads` returns: it never
  -- panics and never ends the connection. Every pending response is nothing but zeros if they all
  -- were before, and nothing is sent.
  pub process_reads-IsReading :
      (fuel : ℕ) (b : Benchmark) (w : World)
      → is_server w ≡ true
      → ((j : ℕ) → unread w j < fuel)
      → ((j : ℕ) → IsZeros (rest (b.pending_res j)))
      → Returns (process_reads c fuel b w) (IsReading w)
  unfolding process_reads
  process_reads-IsReading fuel b w server enough zeros =
      let size = length-replicate {A = ℕ} (32 * 1024) 0 in
      read_streams-IsReading fuel (readable w) w (fresh_buf, b, w) enough
        (record {
          full = omega arith;
          server = server;
          zeros = zeros;
          quiet = λ j. (omega arith, refl);
        })
