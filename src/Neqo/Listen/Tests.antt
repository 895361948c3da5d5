-- ===== src/Neqo/Listen/Tests.antt =====
-- A run of the loop with two clients.
use nesquic.Neqo.Server.TwoClients.{
  Host, queued, queued-IsTransport, queued-IsServed, owner, both, queue, IsOnWay, way_0,
}
use nesquic.Neqo.Server.System.{idle, IsSoundStream}
use nesquic.Neqo.Driver.{readable, callback, done, nothing}
use nesquic.Neqo.Listen.{Endpoint}
use nesquic.Neqo.Listen.Rounds.{IsNetwork}
use nesquic.Bin.{ServerArgs}
use nesquic.Net.{v6}
use nesquic.Prelude.Tasks.{pure}
use nesquic.Common.Client.{run_server}
use nesquic.Neqo.Program.Server.{server_impl}
use nesquic.Neqo.Program.Served.{run_server-IsPrefix}
use nesquic.Neqo.Server.Reading.{size_of}
use nesquic.Prelude.{ℕ, ◌≡◌, replicate, false, length, refl, ◌≤◌, some, none, ◌<◌, arith}

-- A datagram comes in every round, and carries nothing for a stream.
abbrev keep_alive : Endpoint Host
keep_alive = record {
  Datagram = Unit {0};
  process_output = λ w. (callback 5, w);
  has_active_connections = λ w. false;
  process = λ x w. (nothing, w);
  send_to = λ x w. (some tt, w);
  try_recv_from = λ w. (done tt, w);
  select = λ timeout w. (readable (some tt), w);
}

keep_alive-IsNetwork : IsNetwork queued-IsTransport owner IsOnWay keep_alive
keep_alive-IsNetwork = record {
  acts_output = λ states w r i. idle refl;
  acts_process = λ x states w r i. idle refl;
  sends = λ x i w. refl;
  receives = λ i w. refl;
  selects = λ timeout i w. refl;
  bounds = λ states. record {
    process_output = λ w way. way;
    process = λ x w way. way;
    send_to = λ x w way. way;
    try_recv_from = λ w way. way;
    select = λ timeout w way. way;
  };
}

abbrev args : ServerArgs
args = record { unencrypted = false; key = "key.pem"; cert = "cert.pem"; listen = v6 0 4433 }

unused : (i : ℕ) → IsSoundStream none (both (owner i) i).seen
unused i = ground arith

-- A program whose set-up does nothing to the streams, and the stream of the second client.
run_server-IsPrefix_example :
    let v =
      ((run_server
          (server_impl queued keep_alive
            (λ w. (some tt, w))
            (λ addr. pure tt)
            (pure tt)
            (pure tt)
            3
            5
            9)
          args
          (queue, both)).1.1
        2 4).seen in
    (n : ℕ) × (v.outbox ≡ replicate n 0) × (n ≤ size_of v.arrived) × (length v.arrived < 8 → n ≡ 0)
unfolding queued-IsTransport
run_server-IsPrefix_example =
    run_server-IsPrefix queued-IsTransport owner 9 queued-IsServed keep_alive-IsNetwork
      (λ w. (some tt, w)) (λ addr. pure tt) (pure tt) (pure tt) (λ w h. h) (λ addr w h. h)
      (λ w h. h) (λ w h. h) 3 5 4 args (queue, both) (unused, way_0)
