-- ===== src/Metrics/Pipeline.antt =====
-- The programs of nesquic/src/metrics/metrics.bpf.c and the collector of nesquic/src/metrics/mod.rs,
-- which run side by side: the ring buffer is between the programs and the task that polls it, and
-- the statics are between that task and the push. A run of a program, a call of `process` and the
-- draining under its lock are one step each.
pub mod Conserved
use nesquic.Prelude.{ℕ, List, [], ◌∷◌, ◌++◌, Option, ok, ◌≡◌}
use nesquic.Text.{Text}
use nesquic.Metrics.Volumes.{EventIo, Volumes, Status, process}
use nesquic.Metrics.Lines.{Numbers, Statics, collect_line_protocol}
use nesquic.Metrics.Probes.{Kernel, Program, run}
use nesquic.Metrics.Probes.Submitted.{IsKernel}

-- `drained` is what `collect_line_protocol` took out of the map of the volumes, one map for each time,
-- whatever the push did with it.
pub record System (kernel : Kernel) (n : Numbers) : Type 0 where
  pub world : kernel.World
  pub statics : Statics n
  pub drained : List Volumes

module _ {kernel : Kernel} (laws : IsKernel kernel) (monitored_pid : ℕ) (n : Numbers)
    (as_bytes : EventIo → List ℕ) (from_bytes : List ℕ → Option EventIo) where
  open kernel use {World}
  open laws use {buffer}

  -- What is reached when the events of the list have been submitted.
  pub data Reach : System kernel n → List EventIo → Type 0 where
    start :
        {world : World} {statics : Statics n}
        → buffer world ≡ []
        → statics.syscall_volumes ≡ []
        → Reach (record { world = world; statics = statics; drained = [] }) []
    traces :
        {s : System kernel n} {history : List EventIo} (new : List EventIo)
        → Reach s history
        → (program : Program) (args : ℕ → ℕ)
        → buffer (run kernel monitored_pid program args s.world) ≡ buffer s.world ++ new
        → Reach
            (record s { world = run kernel monitored_pid program args s.world })
            (history ++ new)
    -- the processes and their memory change
    passes :
        {s : System kernel n} {history : List EventIo} {world : World}
        → Reach s history
        → buffer world ≡ buffer s.world
        → Reach (record s { world = world }) history
    -- `ringbuf.poll` hands an event to `process`
    polls :
        {s : System kernel n} {history rest : List EventIo} {event : EventIo} {world : World}
        {status : Status} {volumes : Volumes}
        → Reach s history
        → buffer s.world ≡ event ∷ rest
        → buffer world ≡ rest
        → process from_bytes (as_bytes event) s.statics.syscall_volumes ≡ ok (status, volumes)
        → Reach
            (record {
              world = world;
              statics = record {
                throughput_samples = s.statics.throughput_samples;
                syscall_volumes = volumes;
              };
              drained = s.drained;
            })
            history
    -- a push empties the map, whether it succeeds or not
    drains :
        {s : System kernel n} {history : List EventIo}
        → Reach s history
        → (tag_str : Text) (timestamp : ℕ)
        → Reach
            (record {
              world = s.world;
              statics = (collect_line_protocol n tag_str timestamp s.statics).1;
              drained = s.drained ++ (s.statics.syscall_volumes ∷ []);
            })
            history
