-- ===== src/Quinn/Connect/Panics.antt =====
-- When `connect` panics.
use nesquic.Prelude.{◌≡◌, ◌↔◌, panic, none, some, IsPanicFree, Option, String, refl}
use nesquic.Prelude.Tasks.{unwrap, ◌>>=◌, Task, or_fail, require}
use nesquic.Prelude.Keeps.{bind-IsPanicFree, or_fail-IsPanicFree, require-IsPanicFree}
use nesquic.Net.{SocketAddr}
use nesquic.Quinn.Client.{Client}
use nesquic.Quinn.Crates.{Crates}
use nesquic.Quinn.Connect.{connect, connect_to, connect_from, handshake, resolve}

module _ {World : Type 0} (crates : Crates World) (bind_socket : SocketAddr → Task World (Unit {0}))
    (free : (addr : SocketAddr) (w : World) → IsPanicFree (bind_socket addr w).0) where
  open crates use {ClientConfig, to_socket_addrs, connect as start_connect}

  handshake-IsPanicFree :
      (remote : SocketAddr) (host : String) (client : Client ClientConfig) (w : World)
      → IsPanicFree (handshake crates bind_socket remote host client w).0
  unfolding handshake
  handshake-IsPanicFree remote host client =
      bind-IsPanicFree (or_fail (start_connect remote host) _) _
        (or_fail-IsPanicFree (start_connect remote host) _)
        (λ connecting.
          bind-IsPanicFree (or_fail (crates.established connecting) _) _
            (or_fail-IsPanicFree (crates.established connecting) _) (λ _ w. tt))

  resolve-IsPanicFree :
      (host : String) (client : Client ClientConfig) (w : World)
      → IsPanicFree (resolve crates bind_socket host client w).0
  unfolding resolve
  resolve-IsPanicFree host client =
      bind-IsPanicFree (or_fail (to_socket_addrs host _) _) _
        (or_fail-IsPanicFree (to_socket_addrs host _) _) (λ addrs. require-IsPanicFree _ _)

  connect_from-IsPanicFree :
      (remote : SocketAddr) (client : Client ClientConfig) (w : World)
      → IsPanicFree (connect_from crates bind_socket remote client w).0
  unfolding connect_from
  connect_from-IsPanicFree remote client =
      bind-IsPanicFree (or_fail crates.new_client_endpoint _) _
        (or_fail-IsPanicFree crates.new_client_endpoint _)
        (λ _ w.
          bind-IsPanicFree (require client.args.url.host_str _) _ (require-IsPanicFree _ _)
            (λ host. handshake-IsPanicFree remote host client) _)

  -- Where binding a socket does not panic, `connect` panics exactly on a URL without a host.
  pub connect-panic :
      (client : Client ClientConfig) (w : World)
      → ((connect crates bind_socket client w).0 ≡ panic) ↔ (client.args.url.host_str ≡ none)
  unfolding connect connect_to
  connect-panic client w = none_panics client.args.url.host_str
    where
      resolved :
          (host : String) (w : World)
          → IsPanicFree
              ((resolve crates bind_socket host client
                  >>= (λ remote. connect_to crates bind_socket remote client))
                w).0
      resolved host =
          bind-IsPanicFree (resolve crates bind_socket host client) _
            (resolve-IsPanicFree host client)
            (λ remote.
              bind-IsPanicFree (bind_socket _) _ (free _)
                (λ _. connect_from-IsPanicFree remote client))

      none_panics :
          (host : Option String)
          → (((unwrap host >>= (λ host'.
                  resolve crates bind_socket host' client
                  >>= (λ remote. connect_to crates bind_socket remote client)))
                w).0
              ≡ panic)
            ↔ (host ≡ none)
      none_panics none = (λ _. refl, λ _. refl)
      none_panics (some host) = (λ h. absurd (rw h at (resolved host w)), λ h. cc)
