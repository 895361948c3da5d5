-- ===== src/Neqo/Socket.antt =====
-- `bind_socket` and `UdpSocket::bind` of iut/neqo/src/lib.rs.
pub mod Bound
use nesquic.Prelude.{Bool, true, false}
use nesquic.Prelude.Tasks.{Task, ◌>>=◌, pure, or_fail}
use nesquic.Net.{SocketAddr, is_ipv6, Sockets}
use nesquic.Net.Opening.{dual_stack}

module _ (s : Sockets) where
  open s use {
    World, create, set_only_v6, bind as bind_to, set_nonblocking, init_state, from_std, local_addr,
  }

  bind_nonblocking : SocketAddr → Task World (Unit {0})
  bind_nonblocking addr = do
    _ ← or_fail (bind_to addr) "binding socket"
    or_fail (set_nonblocking true) "set_nonblocking"

  dual_stack_and_bind : SocketAddr → Task World (Unit {0})
  dual_stack_and_bind addr = do _ ← dual_stack s (is_ipv6 addr); bind_nonblocking addr

  pub bind_socket : SocketAddr → Task World (Unit {0})
  bind_socket addr = do _ ← or_fail (create addr) "create socket"; dual_stack_and_bind addr

  -- The `tokio::net::UdpSocket` of a bound socket, and its address.
  into_tokio : Task World SocketAddr
  into_tokio = do _ ← or_fail from_std "from_std"; or_fail local_addr "local_addr"

  pub bind_tokio_socket : SocketAddr → Task World SocketAddr
  bind_tokio_socket addr = do _ ← bind_socket addr; into_tokio

  -- `UdpSocket::bind`
  pub bind : SocketAddr → Task World SocketAddr
  bind addr = do _ ← bind_socket addr; _ ← or_fail init_state "init UdpSocketState"; into_tokio
