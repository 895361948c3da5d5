-- ===== src/Quiche/Client/Session.antt =====
-- A run of the client of iut/quiche as a state machine: `run` of iut/quiche/src/client.rs, and the
-- calls that the crate tokio_quiche makes of the client's `Benchmark` (iut/quiche/src/lib.rs).
pub mod Ended
use nesquic.Prelude.{ℕ, String, Bool, true, false, Option, none, some, List, Outcome, ok, ◌≡◌, ◌==◌}
use nesquic.Quiche.Connection.{Connection, IsChannelled, Unseen}
use nesquic.Quiche.Benchmark.{Benchmark, process_reads, process_writes, new}
use nesquic.Quiche.Client.{Client, submit, awaited}

pub data Phase : Type 0 where
  idle : Phase
  waiting : Phase
  returned : Phase

-- `run`, the `Benchmark` that the connection owns, and the connection. The receiver of `run` is `tx`.
pub record Session (c : Connection) : Type 0 where
  pub phase : Phase
  pub app : Benchmark
  pub world : c.World

module _ {c : Connection} (laws : IsChannelled c) (parse : String → Outcome ℕ) (client : Client)
    (tx : ℕ) where
  open laws use {ended, told}

  pub data Step : Session c → Session c → Type 0 where
    submits :
        {b b' : Benchmark} {w : c.World}
        → submit parse tx client (some b) ≡ ok b'
        → Step
            (record { phase = idle; app = b; world = w })
            (record { phase = waiting; app = b'; world = w })
    -- the crate calls `process_reads` …
    reads :
        {p : Phase} {b b' : Benchmark} {w w' : c.World} {buf : List ℕ} (fuel : ℕ)
        → process_reads c fuel b w ≡ ok (buf, b', w')
        → Step
            (record { phase = p; app = b; world = w })
            (record { phase = p; app = b'; world = w' })
    -- … and `process_writes`
    writes :
        {p : Phase} {b b' : Benchmark} {w w' : c.World} (order : List ℕ)
        → process_writes c order b w ≡ ok (b', w')
        → Step
            (record { phase = p; app = b; world = w })
            (record { phase = p; app = b'; world = w' })
    -- what the network does to the connection
    arrives :
        {p : Phase} {b : Benchmark} {w w' : c.World}
        → c.is_server w' ≡ c.is_server w
        → Unseen ended told w w'
        → Step
            (record { phase = p; app = b; world = w })
            (record { phase = p; app = b; world = w' })
    returns :
        {b : Benchmark} {w : c.World}
        → awaited (told w tx) ≡ ok tt
        → Step
            (record { phase = waiting; app = b; world = w })
            (record { phase = returned; app = b; world = w })

  -- From a client's connection on which nobody was sent to.
  pub data Reach : Session c → Type 0 where
    start :
        {w : c.World}
        → c.is_server w ≡ false
        → ((t : ℕ) → told w t ≡ false)
        → Reach (record { phase = idle; app = new; world = w })
    next : {s s' : Session c} → Reach s → Step s s' → Reach s'
