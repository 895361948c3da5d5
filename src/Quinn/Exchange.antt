-- ===== src/Quinn/Exchange.antt =====
-- The client against the server, over a stream that loses nothing.
use nesquic.Prelude.{
  ℕ, ◌<◌, ◌^◌, ◌≡◌, refl, true, false, some, none, Option, List, [], ◌++◌, leb, length,
  if◌then◌else◌, Outcome, ok, String, replicate, length-replicate, le→leb, ◌-◌, arith, ==_iff,
}
use nesquic.Perf.Blob.{Request, to_bytes, len, parse_request}
use nesquic.Quinn.Streams.{Streams, View}
use nesquic.Quinn.Server.{handle_request}
use nesquic.Quinn.Client.{Client, run}
use nesquic.Perf.Bytes.{IsU64}
use nesquic.Perf.Blob.Wire.{length-to_bytes, try_from-request, from_iter-whole}

-- The server's end: what the client has sent is there, and every write succeeds.
abbrev pub server_end : Streams
server_end = record {
  World = View;
  read_to_end = λ limit v. (if leb (length v.incoming) limit then some v.incoming else none, v);
  write = λ bytes v. (some tt, record v { written = v.written ++ bytes });
  finish = λ v. (some tt, record v { finished = true });
}

-- What the server answers to a request, if it finishes its stream.
abbrev pub answer_of : Outcome (Unit {0}) × View → Option (List ℕ)
answer_of (ok _, v) = if v.finished then some v.written else none
answer_of _ = none

pub answer : List ℕ → Option (List ℕ)
answer sent =
    answer_of
      (handle_request server_end (record { incoming = sent; written = []; finished = false }))

abbrev pub within : ℕ → Option (List ℕ) → Option (List ℕ)
within limit none = none
within limit (some bytes) = if leb (length bytes) limit then some bytes else none

-- The client's end: reading to the end runs the server on what was sent.
abbrev pub client_end : Streams
client_end = record {
  World = View;
  read_to_end = λ limit v. (within limit (answer v.written), v);
  write = λ bytes v. (some tt, record v { written = v.written ++ bytes });
  finish = λ v. (some tt, record v { finished = true });
}

abbrev pub blank : View
blank = record { incoming = []; written = []; finished = false }

-- The server answers a request with the zeros that it asks for.
answer-to_bytes : (r : Request) → IsU64 r.size → answer (to_bytes r) ≡ some (replicate (len r) 0)
unfolding answer handle_request
answer-to_bytes r h = rw (length-to_bytes r, try_from-request r h, from_iter-whole (len r))

-- Over such a stream a connected client that asks for a blob of a size that a u64 holds gets it, sees
-- that its length is right, and has sent the request and closed its side.
pub run-server :
    {Config : Type 0} (parse : String → Outcome ℕ) (client : Client Config) (n : ℕ)
    → client.conn ≡ true
    → parse client.args.blob ≡ ok n
    → n < 2 ^ 64
    → run client_end (λ v. (some tt, v)) parse client blank
      ≡ (ok tt, record { incoming = []; written = to_bytes (record { size = n }); finished = true })
unfolding run parse_request
run-server parse client n on parsed fits =
    let size : len (record { size = n }) ≡ n = unfold len in refl in
    rw (on, parsed, answer-to_bytes (record { size = n }) fits, size, length-replicate {A = ℕ} n 0)
      (rw (le→leb n (2 ^ 64 - 1) (omega arith))
        (rw (length-replicate {A = ℕ} n 0, (==_iff n n).1 refl)))
