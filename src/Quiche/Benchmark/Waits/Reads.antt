-- ===== src/Quiche/Benchmark/Waits/Reads.antt =====
-- Reading, on a client: who waits for a stream is sent to once its end was read.
use nesquic.Prelude.{
  ℕ, zero, suc, Bool, true, false, Option, none, some, List, [], ◌∷◌, Outcome, ◌≡◌, ◌==◌, refl,
  IfReturns, IfReturns-bind, Bool-cases, inl, inr, ◌∙◌, ◌⊎◌, err,
}
use nesquic.Quiche.Connection.{Connection}
use nesquic.Quiche.Benchmark.{
  Benchmark, State, set, notified, complete, handle_recv, after_recv, read_stream, read_streams,
  process_reads, fresh_buf,
}
use nesquic.Quiche.Connection.{IsChannelled, SeenEnd}
use nesquic.Quiche.Benchmark.Waits.{IsWaiting, Unseen-IsWaiting}

module _ {c : Connection} (laws : IsChannelled c) (answered : Bool) where
  open laws use {ended, recv_role, recv_unseen, recv_end, notify_role, notify_ended}

  -- A stream that is done has had its end read, so who waits for it can be sent to.
  notify-IsWaiting :
      (b : Benchmark) (w : c.World) (t : ℕ)
      → ended w 0 ≡ true
      → IsWaiting laws answered b w
      → IsWaiting laws answered b (c.notify t w).1
  notify-IsWaiting b w t e h = record {
    client = notify_role t w ∙ h.client;
    queued = h.queued;
    pending = h.pending;
    seen = λ u _. notify_ended t w 0 e;
    before = λ _. notify_ended t w 0 e;
  }

  -- One stream stops being waited for.
  taken-IsWaiting :
      (b : Benchmark) (w : c.World) (i : ℕ)
      → IsWaiting laws answered b w
      → IsWaiting laws answered (record b { pending_req = set i none b.pending_req }) w
  unfolding set
  taken-IsWaiting b w i h = record {
    client = h.client;
    queued = h.queued;
    pending = λ j. elim (Bool-cases (j == i)) [
      | inl same ↦ inl (rw same refl)
      | inr differs ↦ rw differs (h.pending j)
    ];
    seen = h.seen;
    before = h.before;
  }

  notified-IsWaiting :
      (again : State c → Outcome (State c)) (buf : List ℕ) (b : Benchmark)
      (result : Option (Unit {0})) (w : c.World)
      → ((s : State c)
          → IsWaiting laws answered s.1 s.2
          → IfReturns (again s) (λ s. IsWaiting laws answered s.1 s.2))
      → IsWaiting laws answered b w
      → IfReturns (notified c again buf b (result, w)) (λ s. IsWaiting laws answered s.1 s.2)
  unfolding notified
  notified-IsWaiting again buf b none w continued h = tt
  notified-IsWaiting again buf b (some _) w continued h = continued (buf, b, w) h

  complete-IsWaiting :
      (again : State c → Outcome (State c)) (i : ℕ) (buf : List ℕ) (b : Benchmark) (w : c.World)
      → ((s : State c)
          → IsWaiting laws answered s.1 s.2
          → IfReturns (again s) (λ s. IsWaiting laws answered s.1 s.2))
      → ended w i ≡ true
      → IsWaiting laws answered b w
      → IfReturns (complete c again i buf b w) (λ s. IsWaiting laws answered s.1 s.2)
  unfolding complete
  complete-IsWaiting again i buf b w continued e h = go (b.pending_req i) (h.pending i)
    where
      go :
          (entry : Option ℕ)
          → (entry ≡ none) ⊎ (i ≡ 0)
          → IfReturns
              (elim entry [
                | none ↦ err "Unknown stream"
                | some tx ↦
                    notified c again buf
                      (record b { pending_req = set i none b.pending_req })
                      (c.notify tx w)
              ])
              (λ s. IsWaiting laws answered s.1 s.2)
      go none known = tt
      go (some tx) (inl e) = absurd cc
      go (some tx) (inr first) =
          notified-IsWaiting again buf _ (c.notify tx w).0 (c.notify tx w).1 continued
            (notify-IsWaiting _ w tx (rw⁻¹ first e) (taken-IsWaiting b w i h))

  after_recv-IsWaiting :
      (again : State c → Outcome (State c)) (i : ℕ) (buf : List ℕ) (b : Benchmark)
      (result : Option (List ℕ × Bool)) (w' : c.World)
      → ((s : State c)
          → IsWaiting laws answered s.1 s.2
          → IfReturns (again s) (λ s. IsWaiting laws answered s.1 s.2))
      → SeenEnd ended i result w'
      → IsWaiting laws answered b w'
      → IfReturns (after_recv c again i buf b (result, w')) (λ s. IsWaiting laws answered s.1 s.2)
  unfolding after_recv handle_recv
  after_recv-IsWaiting again i buf b none w' continued e h = h
  after_recv-IsWaiting again i buf b (some (bytes, true)) w' continued e h =
      rw h.client (complete-IsWaiting again i _ b w' continued (e refl) h)
  after_recv-IsWaiting again i buf b (some (bytes, false)) w' continued e h =
      rw h.client (continued (_, b, w') h)

  read_stream-IsWaiting :
      (fuel i : ℕ) (s : State c)
      → IsWaiting laws answered s.1 s.2
      → IfReturns (read_stream c fuel i s) (λ s. IsWaiting laws answered s.1 s.2)
  unfolding read_stream
  read_stream-IsWaiting zero i s h = tt
  read_stream-IsWaiting (suc fuel) i (buf, b, w) h =
      after_recv-IsWaiting (read_stream c fuel i) i buf b (c.stream_recv i w).0
        (c.stream_recv i w).1 (read_stream-IsWaiting fuel i) (recv_end i w)
        (Unseen-IsWaiting laws answered b w _ (recv_role i w) (recv_unseen i w) h)

  read_streams-IsWaiting :
      (fuel : ℕ) (streams : List ℕ) (s : State c)
      → IsWaiting laws answered s.1 s.2
      → IfReturns (read_streams c fuel streams s) (λ s. IsWaiting laws answered s.1 s.2)
  unfolding read_streams
  read_streams-IsWaiting fuel [] s h = h
  read_streams-IsWaiting fuel (i ∷ streams) s h =
      IfReturns-bind (λ s. IsWaiting laws answered s.1 s.2) (λ s. IsWaiting laws answered s.1 s.2)
        (read_stream c fuel i s) (read_streams c fuel streams) (read_stream-IsWaiting fuel i s h)
        (read_streams-IsWaiting fuel streams)

  pub process_reads-IsWaiting :
      (fuel : ℕ) (b : Benchmark) (w : c.World)
      → IsWaiting laws answered b w
      → IfReturns (process_reads c fuel b w) (λ s. IsWaiting laws answered s.1 s.2)
  unfolding process_reads
  process_reads-IsWaiting fuel b w h =
      read_streams-IsWaiting fuel (c.readable w) (fresh_buf, b, w) h
