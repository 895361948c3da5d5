-- ===== src/Common/Client/Completed.antt =====
-- What `run_client` has done when it returns without an error.
use nesquic.Prelude.{ℕ, ◌≡◌, ok, String, Outcome, ap, sym, ◌∙◌}
use nesquic.Prelude.Tasks.{bind-eq-ok, lift, pure}
use mathlib.Core.Path.{subst}
use nesquic.Bin.{ClientArgs, ClientImpl}
use nesquic.Perf.Blob.{Request, parse_request, len}
use nesquic.Perf.Stats.{Floats, Stats, start_measurement, new, add_bytes, stop_measurement}
use nesquic.Common.Client.{
  run_client, run_and_measure, connect_and_measure, measure_run, record_run, read_clock,
}

module _ (c : ClientImpl) (now : c.World → ℕ × c.World) (floats : Floats)
    (parse : String → Outcome ℕ) where
  open c use {World, Self, new as new_client, connect, run}

  -- The steps before the statistics: the client was made, it connected and it ran, and the clock was
  -- read before and after the run.
  pub record IsCompleted (args : ClientArgs) (w w' : World) : Type 0 where
    pub made : Self
    pub connected : Self
    pub ran : Self
    pub w1 : World
    pub w2 : World
    pub w3 : World
    pub make : new_client args w ≡ (ok made, w1)
    pub connection : connect made w1 ≡ (ok connected, w2)
    pub execution : run connected (now w2).1 ≡ (ok ran, w3)
    pub last : w' ≡ (now w3).1

  record_run-eq-ok :
      (req : Request) (before stats : Stats) (w w' : World)
      → record_run c now floats parse req before w ≡ (ok stats, w')
      → w' ≡ (now w).1
  unfolding record_run read_clock
  record_run-eq-ok req before stats w w' h =
      let (counted, w1, e1, h1) = bind-eq-ok (lift (add_bytes (len req) before)) _ w w' h in
      let (stopped, w2, e2, h2) =
        bind-eq-ok (lift (stop_measurement floats (now w1).0 counted.0)) (λ stopped. pure stopped.0)
          (now w1).1 w' h1 in
      let unread : w ≡ w1 = ap (λ (p : Outcome _ × World). p.1) e1 in
      sym (ap (λ (p : Outcome Stats × World). p.1) h2)
      ∙ sym (ap (λ (p : Outcome _ × World). p.1) e2)
      ∙ ap (λ (u : World). (now u).1) (sym unread)

  measure_run-eq-ok :
      (req : Request) (made : Self) (stats : Stats) (w w' : World)
      → measure_run c now floats parse req made w ≡ (ok stats, w')
      → (ran : Self) × (u : World) × (run made (now w).1 ≡ (ok ran, u)) × (w' ≡ (now u).1)
  unfolding measure_run read_clock
  measure_run-eq-ok req made stats w w' h =
      let (ran, u, e, rest) = bind-eq-ok (run made) _ (now w).1 w' h in
      (ran, u, e, record_run-eq-ok req (start_measurement (now w).0 new) stats u w' rest)

  pub run_client-IsCompleted :
      (args : ClientArgs) (w w' : World)
      → run_client c now floats parse args w ≡ (ok tt, w')
      → IsCompleted args w w'
  unfolding run_client run_and_measure connect_and_measure
  run_client-IsCompleted args w w' h =
      let (stats, v, h1, end) = bind-eq-ok (run_and_measure c now floats parse args) _ w w' h in
      let (req, w0, e0, h2) = bind-eq-ok (lift (parse_request parse args.blob)) _ w v h1 in
      let (made, w1, e1, h3) = bind-eq-ok (new_client args) _ w0 v h2 in
      let (connected, w2, e2, h4) = bind-eq-ok (connect made) _ w1 v h3 in
      let (ran, w3, e3, last) = measure_run-eq-ok req connected stats w2 v h4 in
      let same : w ≡ w0 = ap (λ (p : Outcome Request × World). p.1) e0 in
      let done : w' ≡ v = sym (ap (λ (p : Outcome (Unit {0}) × World). p.1) end) in
      record {
        made = made;
        connected = connected;
        ran = ran;
        w1 = w1;
        w2 = w2;
        w3 = w3;
        make = subst (λ u. new_client args u ≡ (ok made, w1)) (sym same) e1;
        connection = e2;
        execution = e3;
        last = done ∙ last;
      }
