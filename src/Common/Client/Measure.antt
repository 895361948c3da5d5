-- ===== src/Common/Client/Measure.antt =====
-- What the statistics of a run hold.
use nesquic.Prelude.{ℕ, ◌≡◌, ok, refl, String, ◌-◌, ◌∷◌, [], none, lt→ltb, ◌^◌, ◌+◌, arith}
use nesquic.Bin.{ClientArgs, ClientImpl}
use nesquic.Perf.Bytes.{IsU64}
use nesquic.Perf.Blob.{Request, parse_request, len}
use nesquic.Perf.Stats.{Floats, start_measurement, add_bytes, stop_measurement, get_last?, set_last}
use nesquic.Common.Client.{run_and_measure, Outcome}

module _ (c : ClientImpl) (now : c.World → ℕ × c.World) (floats : Floats)
    (parse : String → Outcome ℕ) where
  open c use {World, Self, new as new_client, connect, run}

  -- Where the blob is a size that a u64 holds, and the implementation is made, connects and runs
  -- without an error, `run_client` returns without one, and its statistics hold one measurement: the
  -- time from after the connecting to after the run, and the size of the blob.
  pub run_and_measure-sample :
      (args : ClientArgs) (req : Request) (made connected ran : Self) (w w1 w2 w3 : World)
      → parse_request parse args.blob ≡ ok req
      → IsU64 req.size
      → new_client args w ≡ (ok made, w1)
      → connect made w1 ≡ (ok connected, w2)
      → run connected (now w2).1 ≡ (ok ran, w3)
      → run_and_measure c now floats parse args w ≡ (
        ok (record {
          deltas = ((now w3).0 - (now w2).0) ∷ [];
          start = none;
          num_bytes = len req ∷ [];
        }),
        (now w3).1,
      )
  unfolding run_and_measure start_measurement add_bytes stop_measurement get_last? set_last len
  run_and_measure-sample args req made connected ran w w1 w2 w3 parsed fits e1 e2 e3 =
      let from_zero : 0 + req.size ≡ req.size = omega arith in
      rw (parsed, e1, e2, e3) (rw (from_zero, lt→ltb req.size (2 ^ 64) fits) refl)
