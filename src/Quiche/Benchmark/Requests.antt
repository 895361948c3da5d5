-- ===== src/Quiche/Benchmark/Requests.antt =====
-- What a server makes of a request that comes at once, and of an end of a stream that comes alone.
use nesquic.Perf.Bytes.{from_be_bytes, IsU64}
use nesquic.Perf.Blob.{Request, to_bytes, len}
use nesquic.Quiche.Connection.{Connection, IsConnection, Received}
use nesquic.Prelude.{
  take, List, ℕ, Bool, [], ◌≡◌, some, take-replicate, none, take-append_le, ◌*◌, drop, length, true,
  arith, ◌∙◌, ◌∷◌, Returns, refl, suc, ok, ◌++◌, ==_iff, replicate, ap, append-nil,
  length-replicate,
}
use nesquic.Quiche.Benchmark.Reads.{overlay, response, length-overlay, store_lem}
use nesquic.Quiche.Benchmark.{
  process_reads, read_streams, fresh_buf, read_stream, after_recv, handle_recv, Benchmark, set,
}
use nesquic.Perf.Blob.Wire.{length-to_bytes, from_be_bytes-to_bytes}
use nesquic.Quiche.Benchmark.Writes.{owed}

-- The size that the buffer holds after a whole request.
from_be_bytes-overlay :
    (r : Request) (buf : List ℕ)
    → IsU64 r.size
    → from_be_bytes (take 8 (overlay (to_bytes r) buf)) ≡ r.size
from_be_bytes-overlay r buf h =
    let size = length-to_bytes r in
    rw (take-append_le 8 (to_bytes r) (drop (length (to_bytes r)) buf) (omega arith))
      (unfold len in from_be_bytes-to_bytes r h)

from_be_bytes-fresh : from_be_bytes (take 8 (overlay [] fresh_buf)) ≡ 0
from_be_bytes-fresh =
    rw (take-replicate {A = ℕ} 8 (32 * 1024) 0 (omega arith)) (unfold from_be_bytes in refl)

module _ {c : Connection} (laws : IsConnection c) where
  open c use {World, is_server, readable, stream_recv}
  open laws use {unread, outbox, role_law, recv_law}

  -- A call in which one stream is readable, once.
  process_reads-once :
      (fuel i : ℕ) (bytes : List ℕ) (done : Bool) (b : Benchmark) (w w1 w2 : World)
      → is_server w ≡ true
      → readable w ≡ i ∷ []
      → stream_recv i w ≡ (some (bytes, done), w1)
      → stream_recv i w1 ≡ (none, w2)
      → process_reads c (suc (suc fuel)) b w
        ≡ ok (
          overlay bytes fresh_buf,
          record b {
            pending_res = set i (some (response (overlay bytes fresh_buf))) b.pending_res;
          },
          w2,
        )
  unfolding process_reads read_streams read_stream after_recv handle_recv
  process_reads-once fuel i bytes done b w w1 w2 server one first second =
      let still : is_server w1 ≡ true = rw first at (role_law i w ∙ server) in
      let full =
        length-overlay bytes fresh_buf (omega (arith, length-replicate {A = ℕ} (32 * 1024) 0)) in
      rw (one, first)
        (rw (still, store_lem c (read_stream c (suc fuel) i) i (overlay bytes fresh_buf) b w1 full)
          (rw second refl))

  outbox-once :
      (i : ℕ) (bytes : List ℕ) (done : Bool) (w w1 w2 : World)
      → stream_recv i w ≡ (some (bytes, done), w1)
      → stream_recv i w1 ≡ (none, w2)
      → outbox w2 i ≡ outbox w i
  outbox-once i bytes done w w1 w2 first second =
      let law1 : Received unread outbox i w (some (bytes, done)) w1 = rw first at (recv_law i w) in
      let law2 : Received unread outbox i w1 none w2 = rw second at (recv_law i w1) in
      (law2 i).1 ∙ (law1.1 i).1

  -- A request that is read whole in one go: the stream is to get what it was sent so far and then
  -- exactly the zeros that the request asks for.
  process_reads-request :
      (fuel i : ℕ) (r : Request) (done : Bool) (b : Benchmark) (w w1 w2 : World)
      → IsU64 r.size
      → is_server w ≡ true
      → readable w ≡ i ∷ []
      → stream_recv i w ≡ (some (to_bytes r, done), w1)
      → stream_recv i w1 ≡ (none, w2)
      → Returns
          (process_reads c (suc (suc fuel)) b w)
          (λ s. owed laws s.1.pending_res s.2 i ≡ outbox w i ++ replicate r.size 0)
  process_reads-request fuel i r done b w w1 w2 h server one first second =
      rw (process_reads-once fuel i (to_bytes r) done b w w1 w2 server one first second) (
        unfold set in
        rw ((==_iff i i).1 refl, from_be_bytes-overlay r fresh_buf h)
          (ap (λ (out : List ℕ). out ++ replicate r.size 0)
            (outbox-once i (to_bytes r) done w w1 w2 first second)))

  -- When only the end of a stream is read, which is so when it comes apart from the request, the
  -- stream is to get nothing more, whatever was pending for it: the rest of a response that is being
  -- sent is dropped.
  pub process_reads-end :
      (fuel i : ℕ) (b : Benchmark) (w w1 w2 : World)
      → is_server w ≡ true
      → readable w ≡ i ∷ []
      → stream_recv i w ≡ (some ([], true), w1)
      → stream_recv i w1 ≡ (none, w2)
      → Returns
          (process_reads c (suc (suc fuel)) b w)
          (λ s. (s.1.pending_res i ≡ some []) × (owed laws s.1.pending_res s.2 i ≡ outbox w i))
  process_reads-end fuel i b w w1 w2 server one first second =
      rw (process_reads-once fuel i [] true b w w1 w2 server one first second) (
        unfold set in
        rw ((==_iff i i).1 refl, from_be_bytes-fresh)
          (refl, append-nil (outbox w2 i) ∙ outbox-once i [] true w w1 w2 first second))
