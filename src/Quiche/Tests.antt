-- ===== src/Quiche/Tests.antt =====
-- Runs of the application of iut/quiche on small inputs.
use nesquic.Quiche.Connection.{Connection, IsConnection, Received, Sent}
use nesquic.Prelude.{
  ℕ, List, Option, if◌then◌else◌, length, true, Bool, min, ◌+◌, ◌==◌, ◌∷◌, [], refl, some, ◌&&◌,
  not, ◌++◌, none, take, false, ◌-◌, Bool-cases, arith, ==_iff, inl, inr, Returns, ◌≡◌, ◌<◌, ◌^◌,
}
use nesquic.Quiche.Benchmark.{Benchmark, process_reads, process_writes, set, new}
use nesquic.Perf.Blob.{to_bytes}
use nesquic.Quiche.Benchmark.Writes.{owed, process_writes-owed}
use nesquic.Quiche.Benchmark.Reads.{IsReading, process_reads-IsReading}
use nesquic.Quiche.Benchmark.Requests.{process_reads-end}
use nesquic.Perf.Blob.Wire.{length-to_bytes}
use nesquic.Perf.Bytes.{to_be_bytes}

-- Every stream by what has arrived on it, whether its end is still to be read, what it was sent and
-- how much more it takes.
record Cell : Type 0 where
  inbox : List ℕ
  end : Bool
  sent : List ℕ
  credit : ℕ

abbrev Cells : Type 0
Cells = ℕ → Cell

update : ℕ → Cell → Cells → Cells
update i cell w j = if j == i then cell else w j

-- Reading hands out all that is there, and the end with it if it has come.
recv_cell : ℕ → Cell → Cells → Option (List ℕ × Bool) × Cells
unfolding update
recv_cell i cell w =
    if (length cell.inbox == 0) && not cell.end
    then (none, w)
    else (some (cell.inbox, cell.end), update i (record cell { inbox = []; end = false }) w)

-- Sending takes what there is credit for.
send_cell : ℕ → List ℕ → Cell → Cells → Option ℕ × Cells
unfolding update
send_cell i bytes cell w =
    let n = min (length bytes) cell.credit in
    (
      some n,
      update i (record cell { sent = cell.sent ++ take n bytes; credit = cell.credit - n }) w,
    )

-- A server on whose streams 0 alone is readable.
abbrev memory : Connection
memory = record {
  World = Cells;
  is_server = λ w. true;
  readable = λ w. 0 ∷ [];
  stream_recv = λ i w. recv_cell i (w i) w;
  stream_send = λ i bytes w. send_cell i bytes (w i) w;
  notify = λ tx w. (some tt, w);
}

unread : Cells → ℕ → ℕ
unread w i = length (w i).inbox + (if (w i).end then 1 else 0)

drained :
    (cell : Cell)
    → ((length cell.inbox == 0) && not cell.end) ≡ false
    → 0 < length cell.inbox + (if cell.end then 1 else 0)
drained cell h = ground arith

memory_recv :
    (i : ℕ) (w : Cells)
    → Received unread (λ w j. (w j).sent) i w (recv_cell i (w i) w).0 (recv_cell i (w i) w).1
unfolding recv_cell unread update
memory_recv i w = elim (Bool-cases ((length (w i).inbox == 0) && not (w i).end)) [
  | inl nothing ↦ rw nothing (λ j. (omega arith, refl))
  | inr something ↦ rw something (
    rw ((==_iff i i).1 refl) (drained (w i) something),
    λ j. elim (Bool-cases (j == i)) [
      | inl same ↦ rw same (rw ((==_iff j i).0 same) (omega arith, refl))
      | inr differs ↦ rw differs (omega arith, refl)
    ],
  )
]

memory_send :
    (i : ℕ) (bytes : List ℕ) (w : Cells)
    → Sent unread
        (λ w j. (w j).sent)
        i
        bytes
        w
        (send_cell i bytes (w i) w).0
        (send_cell i bytes (w i) w).1
unfolding send_cell update
memory_send i bytes w = (omega arith, rw ((==_iff i i).1 refl) refl, λ j differs. rw differs refl)

abbrev memory_laws : IsConnection memory
memory_laws = record {
  unread = unread;
  outbox = λ w j. (w j).sent;
  role_law = λ i w. refl;
  recv_law = memory_recv;
  send_law = memory_send;
}

-- Each stream has a request for two bytes, and takes one byte of the response.
abbrev requested : Cells
requested i = record { inbox = to_bytes (record { size = 2 }); end = true; sent = []; credit = 1 }

abbrev ended : Cells
ended i = record { inbox = []; end = true; sent = 0 ∷ []; credit = 1 }

-- One byte of two was sent.
abbrev halfway : Benchmark
halfway = record new { pending_res = set 0 (some (0 ∷ [])) new.pending_res }

ten : (j : ℕ) → unread requested j < 10
unfolding unread
ten j = omega (arith, length-to_bytes (record { size = 2 }))

read_request : Cells
read_request = (recv_cell 0 (requested 0) requested).1

first_read :
    memory.stream_recv 0 requested ≡ (some (to_bytes (record { size = 2 }), true), read_request)
unfolding read_request recv_cell to_bytes to_be_bytes
first_read = refl

second_read : memory.stream_recv 0 read_request ≡ (none, read_request)
unfolding read_request recv_cell update to_bytes to_be_bytes
second_read = refl

read_end : Cells
read_end = (recv_cell 0 (ended 0) ended).1

first_end : memory.stream_recv 0 ended ≡ (some ([], true), read_end)
unfolding read_end recv_cell
first_end = refl

second_end : memory.stream_recv 0 read_end ≡ (none, read_end)
unfolding read_end recv_cell update
second_end = refl

two_IsU64 : 2 < 2 ^ 64
two_IsU64 = omega arith

process_writes-owed_example : Returns (process_writes memory (0 ∷ []) halfway ended) (λ p.
    (j : ℕ) → owed memory_laws p.0.pending_res p.1 j ≡ owed memory_laws halfway.pending_res ended j)
process_writes-owed_example = process_writes-owed memory_laws (0 ∷ []) halfway ended refl

process_reads-IsReading_example :
    Returns (process_reads memory 10 new requested) (IsReading memory_laws requested)
process_reads-IsReading_example =
    process_reads-IsReading memory_laws 10 new requested refl ten (λ j. refl)

process_reads-end_example :
    Returns
      (process_reads memory 2 halfway ended)
      (λ s. (s.1.pending_res 0 ≡ some []) × (owed memory_laws s.1.pending_res s.2 0 ≡ 0 ∷ []))
process_reads-end_example =
    process_reads-end memory_laws 0 0 halfway ended read_end read_end refl refl first_end second_end
