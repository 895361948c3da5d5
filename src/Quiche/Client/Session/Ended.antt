-- ===== src/Quiche/Client/Session/Ended.antt =====
-- What a client that has returned has seen.
use nesquic.Prelude.{
  ℕ, String, Bool, true, false, some, List, [], ◌∷◌, ◌++◌, Outcome, ok, err, ◌≡◌, refl, IfReturns,
  inl, if◌then◌else◌, ◌>>=◌, panic, stuck,
}
use nesquic.Perf.Blob.{Request, parse_request}
use nesquic.Quiche.Connection.{Connection, IsChannelled}
use nesquic.Quiche.Benchmark.{Benchmark}
use nesquic.Quiche.Benchmark.Waits.{IsWaiting, Unseen-IsWaiting, OnFirst}
use nesquic.Quiche.Benchmark.Waits.Reads.{process_reads-IsWaiting}
use nesquic.Quiche.Benchmark.Waits.Writes.{process_writes-IsWaiting}
use nesquic.Quiche.Client.{Client, submit, awaited, send_request}
use nesquic.Quiche.Client.Session.{
  Session, Step, Reach, submits, reads, writes, arrives, returns, start, next, Phase, idle, waiting,
  returned,
}

append-OnFirst :
    (reqs : List (ℕ × Request × ℕ)) (request : Request) (tx : ℕ)
    → OnFirst reqs
    → OnFirst (reqs ++ ((0, request, tx) ∷ []))
unfolding OnFirst
append-OnFirst [] request tx h = (refl, tt)
append-OnFirst ((stream, r, t) ∷ reqs) request tx (first, h) =
    (first, append-OnFirst reqs request tx h)

is_returned : Phase → Bool
is_returned idle = false
is_returned waiting = false
is_returned returned = true

result_has : {A : Type 0} (P : A → Type 0) (m : Outcome A) (a : A) → m ≡ ok a → IfReturns m P → P a
result_has P m a e h = rw e at h

awaited-eq-ok : (sent : Bool) → awaited sent ≡ ok tt → sent ≡ true
unfolding awaited
awaited-eq-ok true e = refl
awaited-eq-ok false e = absurd cc

module _ {c : Connection} (laws : IsChannelled c) (parse : String → Outcome ℕ) (client : Client)
    (tx : ℕ) where
  open laws use {ended, told}

  submit-IsWaiting :
      (answered : Bool) (b : Benchmark) (w : c.World)
      → IsWaiting laws answered b w
      → IfReturns (submit parse tx client (some b)) (λ b'. IsWaiting laws answered b' w)
  unfolding submit send_request
  submit-IsWaiting answered b w h = go client.send (parse_request parse client.args.blob)
    where
      go :
          (connected : Bool) (request : Outcome Request)
          → IfReturns
              (if connected
                then (do r ← request; send_request tx r (some b))
                else err "not connected")
              (λ b'. IsWaiting laws answered b' w)
      go false request = tt
      go true (ok request) = record {
        client = h.client;
        queued = append-OnFirst b.reqs request tx h.queued;
        pending = h.pending;
        seen = h.seen;
        before = h.before;
      }
      go true (err e) = tt
      go true panic = tt
      go true stuck = tt

  Step-IsWaiting :
      (s s' : Session c)
      → Step laws parse client tx s s'
      → IsWaiting laws (is_returned s.phase) s.app s.world
      → IsWaiting laws (is_returned s'.phase) s'.app s'.world
  unfolding is_returned
  Step-IsWaiting s s' (submits {b} {b'} {w} e) h =
      result_has (λ b'. IsWaiting laws false b' w) _ b' e (submit-IsWaiting false b w h)
  Step-IsWaiting s s' (reads {p} {b} {b'} {w} {w'} {buf} fuel e) h =
      result_has (λ s. IsWaiting laws (is_returned p) s.1 s.2) _ (buf, b', w') e
        (process_reads-IsWaiting laws (is_returned p) fuel b w h)
  Step-IsWaiting s s' (writes {p} {b} {b'} {w} {w'} order e) h =
      result_has (λ s. IsWaiting laws (is_returned p) s.0 s.1) _ (b', w') e
        (process_writes-IsWaiting laws (is_returned p) order b w h)
  Step-IsWaiting s s' (arrives {p} {b} {w} {w'} role unseen) h =
      Unseen-IsWaiting laws (is_returned p) b w w' role unseen h
  Step-IsWaiting s s' (returns {b} {w} e) h = record {
    client = h.client;
    queued = h.queued;
    pending = h.pending;
    seen = h.seen;
    before = λ _. h.seen tx (awaited-eq-ok (told w tx) e);
  }

  Reach-IsWaiting :
      (s : Session c)
      → Reach laws parse client tx s
      → IsWaiting laws (is_returned s.phase) s.app s.world
  unfolding is_returned OnFirst
  Reach-IsWaiting s (start {w} role silent) = record {
    client = role;
    queued = tt;
    pending = λ i. inl refl;
    seen = λ t sent. (let no = silent t in absurd cc);
    before = λ e. absurd cc;
  }
  Reach-IsWaiting s' (next {s} r step) = Step-IsWaiting s s' step (Reach-IsWaiting s r)

  -- In every history of a client that starts on a client's connection with nobody sent to, be the
  -- calls of the application and what arrives ordered in any way: when `run` has returned, the end
  -- of stream 0 was read, the stream on which it sent its request.
  pub returned-ended :
      (s : Session c) → Reach laws parse client tx s → s.phase ≡ returned → ended s.world 0 ≡ true
  unfolding is_returned
  returned-ended s r e = let h = (Reach-IsWaiting s r).before in (rw e at h) refl
