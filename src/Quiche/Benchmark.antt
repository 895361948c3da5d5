-- ===== src/Quiche/Benchmark.antt =====
-- `Benchmark` of iut/quiche/src/lib.rs. Of its fields `buf` is left out, which it only lends to the
-- library. A map is a function, and the order in which `pending_res` is iterated a parameter. An
-- error ends the connection, so no state is returned beside it.
use nesquic.Quiche.Connection.{Connection}
use nesquic.Prelude.{
  ℕ, List, Option, Outcome, Bool, err, if◌then◌else◌, ok, panic, replicate, stuck, ◌>>=◌, ◌∷◌, [],
  leb, none, some, suc, ◌*◌, ◌==◌, length, zero, ◌++◌, drop,
}
use nesquic.Perf.Blob.{Request, try_from, from_iter, to_bytes}
pub mod Writes
pub mod Reads
pub mod Requests
pub mod Waits
pub mod Notices
mod Tests

pub record Benchmark : Type 0 where
  -- what `try_recv` returns: a stream, a request and the channel that waits for its response
  pub reqs : List (ℕ × Request × ℕ)
  pub pending_req : ℕ → Option ℕ
  -- `Cursor<Bytes>`, by what remains of it
  pub pending_res : ℕ → Option (List ℕ)

abbrev pub new : Benchmark
new = record { reqs = []; pending_req = λ stream. none; pending_res = λ stream. none }

unfoldable pub set {ℓ} : {A : Type ℓ} → ℕ → Option A → (ℕ → Option A) → ℕ → Option A
set i entry entries j = if j == i then entry else entries j

abbrev pub fresh_buf : List ℕ
fresh_buf = replicate (32 * 1024) 0

-- `advance` panics beyond the end.
unfoldable pub advance : ℕ → List ℕ → Outcome (List ℕ)
advance n bytes = if leb n (length bytes) then ok (drop n bytes) else panic

-- The loop that removes the completed responses.
remove_all : List ℕ → (ℕ → Option (List ℕ)) → ℕ → Option (List ℕ)
remove_all [] pending = pending
remove_all (stream ∷ streams) pending = remove_all streams (set stream none pending)

module _ (c : Connection) where
  open c use {World, is_server, readable, stream_recv, stream_send, notify}

  -- The state of `process_reads` in its loops: its buffer, `self` and the connection.
  abbrev pub State : Type 0
  State = List ℕ × Benchmark × World

  -- `tx.send(()).unwrap()`
  notified :
      (State → Outcome State) → List ℕ → Benchmark → Option (Unit {0}) × World → Outcome State
  notified again buf b (none, w) = panic
  notified again buf b (some _, w) = again (buf, b, w)

  -- The two branches of the loop's body, with a filled buffer: a server stores a response, and a
  -- client tells the one who waits for this stream when it is done.
  pub store : (State → Outcome State) → ℕ → List ℕ → Benchmark → World → Outcome State
  store again stream buf b w = do
    blob ← try_from buf
    payload ← from_iter blob
    again (buf, record b { pending_res = set stream (some payload) b.pending_res }, w)

  complete : (State → Outcome State) → ℕ → List ℕ → Benchmark → World → Outcome State
  complete again stream buf b w = elim (b.pending_req stream) [
    | none ↦ err "Unknown stream"
    | some tx ↦
        notified again buf (record b { pending_req = set stream none b.pending_req }) (notify tx w)
  ]

  handle_recv : (State → Outcome State) → ℕ → Bool → List ℕ → Benchmark → World → Outcome State
  handle_recv again stream done buf b w =
      if is_server w
      then store again stream buf b w
      else if done
      then complete again stream buf b w
      else again (buf, b, w)

  after_recv :
      (State → Outcome State)
      → ℕ
      → List ℕ
      → Benchmark
      → Option (List ℕ × Bool) × World
      → Outcome State
  after_recv again stream buf b (none, w) = ok (buf, b, w)
  after_recv again stream buf b (some (bytes, done), w) =
      handle_recv again stream done (bytes ++ drop (length bytes) buf) b w

  -- `while let Ok((_, done)) = qconn.stream_recv(stream, &mut buf)`, on fuel.
  pub read_stream : ℕ → ℕ → State → Outcome State
  read_stream zero stream s = stuck
  read_stream (suc fuel) stream (buf, b, w) =
      after_recv (read_stream fuel stream) stream buf b (stream_recv stream w)

  read_streams : ℕ → List ℕ → State → Outcome State
  read_streams fuel [] s = ok s
  read_streams fuel (stream ∷ streams) s = do
    s' ← read_stream fuel stream s
    read_streams fuel streams s'

  pub process_reads : ℕ → Benchmark → World → Outcome State
  process_reads fuel b w = read_streams fuel (readable w) (fresh_buf, b, w)

  -- The request that waits in the channel, if there is one.
  sent_request : Benchmark → Option ℕ × World → Outcome (Benchmark × World)
  sent_request b (none, w) = err "stream_send failed"
  sent_request b (some n, w) = ok (b, w)

  write_first : List (ℕ × Request × ℕ) → Benchmark → World → Outcome (Benchmark × World)
  write_first [] b w = ok (b, w)
  write_first ((stream, req, tx) ∷ reqs) b w =
      sent_request (record b { reqs = reqs; pending_req = set stream (some tx) b.pending_req })
        (stream_send stream (to_bytes req) w)

  write_request : Benchmark → World → Outcome (Benchmark × World)
  unfolding write_first
  write_request b w = write_first b.reqs b w

  -- The pending responses, the streams whose response is complete, and the connection.
  abbrev pub Writing : Type 0
  Writing = (ℕ → Option (List ℕ)) × List ℕ × World

  -- `if let Ok(len) = …` and what follows it.
  after_send : ℕ → List ℕ → (ℕ → Option (List ℕ)) → List ℕ → Option ℕ × World → Outcome Writing
  after_send stream res pending completed (none, w) = ok (pending, completed, w)
  after_send stream res pending completed (some n, w) = do
    left ← advance n res
    let completed' : List ℕ = (if length left == 0 then completed ++ (stream ∷ []) else completed)
    ok (set stream (some left) pending, completed', w)

  write_response : ℕ → Writing → Outcome Writing
  write_response stream (pending, completed, w) = elim (pending stream) [
    | none ↦ ok (pending, completed, w)
    | some res ↦ after_send stream res pending completed (stream_send stream res w)
  ]

  write_responses : List ℕ → Writing → Outcome Writing
  write_responses [] s = ok s
  write_responses (stream ∷ streams) s = do s' ← write_response stream s; write_responses streams s'

  -- The borrow of `self` by the iteration, given back.
  finish : Benchmark → Writing → Benchmark × World
  finish b (pending, completed, w) = (record b { pending_res = remove_all completed pending }, w)

  -- `order` is the order in which the map is iterated.
  pub process_writes : List ℕ → Benchmark → World → Outcome (Benchmark × World)
  process_writes order b w = do
    (b', w') ← write_request b w
    s ← write_responses order (b'.pending_res, [], w')
    ok (finish b' s)
