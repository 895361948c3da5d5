-- ===== src/Metrics/Collector.antt =====
-- `MetricsCollector::new` and `monitor_io` of nesquic/src/metrics/mod.rs, over the calls of libbpf. The
-- loaded skeleton is handed on beside the collector; the task that polls the ring buffer is spawned.
pub mod Attached
use nesquic.Prelude.{ℕ, List, Option, ok, Outcome, ◌∷◌, [], err, some, panic, stuck, none}
use nesquic.Prelude.Tasks.{Task, ◌>>=◌, pure, lift, or_fail, message}
use nesquic.Text.{Text, codes}

pub record Bpf (World Link : Type 0) : Type 1 where
  pub OpenSkel : Type 0
  pub Skel : Type 0
  pub RingBuffer : Type 0
  pub process_id : World → ℕ
  pub open_skel : World → Option OpenSkel × World
  -- Writes MONITORED_PID, where there is the data to write it to.
  pub set_pid : ℕ → OpenSkel → Option OpenSkel
  pub load : OpenSkel → World → Option Skel × World
  pub attach : Text → Skel → World → Option Link × World
  pub detach : Link → World → World
  pub add_events : Skel → World → Option (Unit {0}) × World
  pub build : World → Option RingBuffer × World
  pub spawn : RingBuffer → World → World

-- The programs in the order in which they are attached.
unfoldable pub programs : List Text
programs =
    codes "read"
    ∷ codes "write"
    ∷ codes "writev"
    ∷ codes "readv"
    ∷ codes "recvfrom"
    ∷ codes "recvmsg"
    ∷ codes "recvmmsg"
    ∷ codes "sendto"
    ∷ codes "sendmsg"
    ∷ codes "sendmmsg"
    ∷ []

-- Dropping a link detaches its program.
module _ {World Link : Type 0} (detach : Link → World → World) where
  unfoldable pub detach_all : List Link → World → World
  detach_all [] w = w
  detach_all (link ∷ links) w = detach_all links (detach link w)

  -- What `self.links` holds is dropped.
  unfoldable pub drop_links : Option (List Link) → World → World
  unfolding detach_all
  drop_links none w = w
  drop_links (some links) w = detach_all links w

module _ {World Link : Type 0} (bpf : Bpf World Link) where
  open bpf use {
    OpenSkel, Skel, RingBuffer, process_id, open_skel, set_pid, load, attach, detach, add_events,
    build, spawn,
  }

  unfoldable pub new : Task World Skel
  new = do
    opened ← or_fail open_skel "Failed to open"
    pid ← (λ w. (ok (process_id w), w))
    written ← lift (message "Failed to load rodata" (set_pid pid opened))
    or_fail (load written) "Failed to load"

  -- A `?` that returns drops the links made before.
  dropping : {A : Type 0} → List Link → Outcome A × World → Outcome A × World
  dropping links (ok a, w) = (ok a, w)
  dropping links (err e, w) = (err e, detach_all detach links w)
  dropping links (panic, w) = (panic, detach_all detach links w)
  dropping links (stuck, w) = (stuck, w)

  attach_all : Skel → List Text → Task World (List Link)
  attach_all skel [] = pure []
  attach_all skel (program ∷ more) = do
    link ← or_fail (attach program skel) "Failed to attach"
    links ← (λ w. dropping (link ∷ []) (attach_all skel more w))
    pure (link ∷ links)

  poll_events : Skel → Task World (Unit {0})
  poll_events skel = do
    _ ← or_fail (add_events skel) "Failed to add the ring buffer"
    ringbuf ← or_fail build "Failed to build the ring buffer"
    (λ w. (ok tt, spawn ringbuf w))

  -- The links that `self` has afterwards come back beside the outcome.
  monitored :
      Skel
      → Option (List Link)
      → Outcome (List Link) × World
      → (Outcome (Unit {0}) × Option (List Link)) × World
  monitored skel links (ok new_links, w) =
      let (r, w') = poll_events skel (drop_links detach links w) in ((r, some new_links), w')
  monitored skel links (err e, w) = ((err e, links), w)
  monitored skel links (panic, w) = ((panic, links), w)
  monitored skel links (stuck, w) = ((stuck, links), w)

  unfoldable pub monitor_io :
      Skel → Option (List Link) → World → (Outcome (Unit {0}) × Option (List Link)) × World
  unfolding monitored poll_events drop_links attach_all dropping detach_all
  monitor_io skel links w = monitored skel links (attach_all skel programs w)
