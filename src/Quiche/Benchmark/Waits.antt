-- ===== src/Quiche/Benchmark/Waits.antt =====
-- The receivers that wait for stream 0, through the calls of the application.
pub mod Reads
pub mod Writes
use nesquic.Prelude.{
  ℕ, zero, suc, Bool, true, false, Option, none, some, List, [], ◌∷◌, Outcome, ok, ◌≡◌, ◌==◌, refl,
  IfReturns, IfReturns-bind, Bool-cases, inl, inr, ◌∙◌, ==_iff, ◌⊎◌, err,
}
use nesquic.Perf.Blob.{Request}
use nesquic.Quiche.Connection.{Connection}
use nesquic.Quiche.Benchmark.{
  Benchmark, State, set, notified, complete, handle_recv, after_recv, read_stream, read_streams,
  process_reads, sent_request, write_first, write_request, after_send, write_response,
  write_responses, process_writes, finish, fresh_buf, Writing, advance, store,
}
use nesquic.Quiche.Connection.{IsChannelled, SeenEnd, Unseen}

-- Every request waits for stream 0.
unfoldable pub OnFirst : List (ℕ × Request × ℕ) → Type 0
OnFirst [] = Unit
OnFirst ((stream, request, tx) ∷ reqs) = (stream ≡ 0) × OnFirst reqs

module _ {c : Connection} (laws : IsChannelled c) where
  open laws use {
    ended, told, recv_role, recv_unseen, recv_end, send_role, send_unseen, notify_role,
    notify_ended,
  }

  -- Only stream 0 is waited for, and a receiver is sent to after the end of that stream was read. If
  -- `answered`, that was before.
  pub record IsWaiting (answered : Bool) (b : Benchmark) (w : c.World) : Type 0 where
    pub client : c.is_server w ≡ false
    pub queued : OnFirst b.reqs
    pub pending : (i : ℕ) → (b.pending_req i ≡ none) ⊎ (i ≡ 0)
    pub seen : (t : ℕ) → told w t ≡ true → ended w 0 ≡ true
    pub before : answered ≡ true → ended w 0 ≡ true

  pub Unseen-IsWaiting :
      (answered : Bool) (b : Benchmark) (w w' : c.World)
      → c.is_server w' ≡ c.is_server w
      → Unseen ended told w w'
      → IsWaiting answered b w
      → IsWaiting answered b w'
  Unseen-IsWaiting answered b w w' role (more, fewer) h = record {
    client = role ∙ h.client;
    queued = h.queued;
    pending = h.pending;
    seen = λ t e. more 0 (h.seen t (fewer t e));
    before = λ e. more 0 (h.before e);
  }
