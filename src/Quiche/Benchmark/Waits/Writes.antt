-- ===== src/Quiche/Benchmark/Waits/Writes.antt =====
-- Writing, on a client: a request that is sent is waited for.
use nesquic.Prelude.{
  ℕ, Option, none, some, List, [], ◌∷◌, Bool, Outcome, ok, ◌≡◌, ◌==◌, IfReturns, IfReturns-bind,
  Bool-cases, inl, inr, ◌∙◌, ==_iff, err, panic, stuck,
}
use nesquic.Perf.Blob.{Request, to_bytes}
use nesquic.Quiche.Connection.{Connection, IsChannelled}
use nesquic.Quiche.Benchmark.{
  Benchmark, set, sent_request, write_first, write_request, after_send, write_response,
  write_responses, process_writes, finish, Writing, advance,
}
use nesquic.Quiche.Benchmark.Waits.{IsWaiting, Unseen-IsWaiting, OnFirst}

module _ {c : Connection} (laws : IsChannelled c) (answered : Bool) where
  open laws use {send_role, send_unseen}

  pop-IsWaiting :
      (b : Benchmark) (w : c.World) (stream : ℕ) (tx : ℕ) (reqs : List (ℕ × Request × ℕ))
      → stream ≡ 0
      → OnFirst reqs
      → IsWaiting laws answered b w
      → IsWaiting laws answered
          (record b { reqs = reqs; pending_req = set stream (some tx) b.pending_req })
          w
  unfolding set
  pop-IsWaiting b w stream tx reqs first queued h = record {
    client = h.client;
    queued = queued;
    pending = λ j. elim (Bool-cases (j == stream)) [
      | inl same ↦ inr ((==_iff j stream).0 same ∙ first)
      | inr differs ↦ rw differs (h.pending j)
    ];
    seen = h.seen;
    before = h.before;
  }

  sent_request-IsWaiting :
      (b : Benchmark) (result : Option ℕ) (w : c.World)
      → IsWaiting laws answered b w
      → IfReturns (sent_request c b (result, w)) (λ s. IsWaiting laws answered s.0 s.1)
  unfolding sent_request
  sent_request-IsWaiting b none w h = tt
  sent_request-IsWaiting b (some n) w h = h

  write_first-IsWaiting :
      (reqs : List (ℕ × Request × ℕ)) (b : Benchmark) (w : c.World)
      → OnFirst reqs
      → IsWaiting laws answered b w
      → IfReturns (write_first c reqs b w) (λ s. IsWaiting laws answered s.0 s.1)
  unfolding write_first OnFirst
  write_first-IsWaiting [] b w queued h = h
  write_first-IsWaiting ((stream, req, tx) ∷ reqs) b w (first, queued) h =
      sent_request-IsWaiting _ (c.stream_send stream (to_bytes req) w).0 _ (
        Unseen-IsWaiting laws answered _ w _ (send_role stream _ w) (send_unseen stream _ w)
          (pop-IsWaiting b w stream tx reqs first queued h))

  -- The application with which the responses are written is not changed by it.
  after_send-IsWaiting :
      (b : Benchmark) (i : ℕ) (res : List ℕ) (pending : ℕ → Option (List ℕ)) (done : List ℕ)
      (result : Option ℕ) (w : c.World)
      → IsWaiting laws answered b w
      → IfReturns (after_send c i res pending done (result, w)) (λ s. IsWaiting laws answered b s.2)
  unfolding after_send
  after_send-IsWaiting b i res pending done none w h = h
  after_send-IsWaiting b i res pending done (some n) w h =
      IfReturns-bind (λ _. Unit {0}) (λ s. IsWaiting laws answered b s.2) (advance n res) _
        (anything _) (λ left _. h)
    where
      anything : {A : Type 0} (m : Outcome A) → IfReturns m (λ _. Unit {0})
      anything (ok a) = tt
      anything (err e) = tt
      anything panic = tt
      anything stuck = tt

  write_response-IsWaiting :
      (b : Benchmark) (i : ℕ) (s : Writing c)
      → IsWaiting laws answered b s.2
      → IfReturns (write_response c i s) (λ s. IsWaiting laws answered b s.2)
  unfolding write_response
  write_response-IsWaiting b i (pending, done, w) h = go (pending i)
    where
      go :
          (entry : Option (List ℕ))
          → IfReturns {A = Writing c}
              (elim entry [
                | none ↦ ok (pending, done, w)
                | some res ↦ after_send c i res pending done (c.stream_send i res w)
              ])
              (λ s. IsWaiting laws answered b s.2)
      go none = h
      go (some res) =
          after_send-IsWaiting b i res pending done (c.stream_send i res w).0 _
            (Unseen-IsWaiting laws answered b w _ (send_role i res w) (send_unseen i res w) h)

  write_responses-IsWaiting :
      (b : Benchmark) (streams : List ℕ) (s : Writing c)
      → IsWaiting laws answered b s.2
      → IfReturns (write_responses c streams s) (λ s. IsWaiting laws answered b s.2)
  unfolding write_responses
  write_responses-IsWaiting b [] s h = h
  write_responses-IsWaiting b (i ∷ streams) s h =
      IfReturns-bind (λ s. IsWaiting laws answered b s.2) (λ s. IsWaiting laws answered b s.2)
        (write_response c i s) (write_responses c streams) (write_response-IsWaiting b i s h)
        (write_responses-IsWaiting b streams)

  finish-IsWaiting :
      (b : Benchmark) (s : Writing c)
      → IsWaiting laws answered b s.2
      → IsWaiting laws answered (finish c b s).0 (finish c b s).1
  unfolding finish
  finish-IsWaiting b (pending, done, w) h = record {
    client = h.client;
    queued = h.queued;
    pending = h.pending;
    seen = h.seen;
    before = h.before;
  }

  pub process_writes-IsWaiting :
      (order : List ℕ) (b : Benchmark) (w : c.World)
      → IsWaiting laws answered b w
      → IfReturns (process_writes c order b w) (λ s. IsWaiting laws answered s.0 s.1)
  unfolding process_writes write_request
  process_writes-IsWaiting order b w h =
      IfReturns-bind (λ s. IsWaiting laws answered s.0 s.1) (λ s. IsWaiting laws answered s.0 s.1)
        (write_first c b.reqs b w) _ (write_first-IsWaiting b.reqs b w h.queued h)
        (λ s h'.
          IfReturns-bind (λ t. IsWaiting laws answered s.0 t.2)
            (λ t. IsWaiting laws answered t.0 t.1)
            (write_responses c order (s.0.pending_res, [], s.1)) _
            (write_responses-IsWaiting s.0 order (s.0.pending_res, [], s.1) h')
            (λ t h''. finish-IsWaiting s.0 t h''))
