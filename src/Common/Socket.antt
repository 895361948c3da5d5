-- ===== src/Common/Socket.antt =====
-- `bind_socket` of iut/common/src/lib.rs, which the programs over quinn and noq call.
pub mod Opened
use nesquic.Prelude.Tasks.{Task, ◌>>=◌, or_fail}
use nesquic.Net.{SocketAddr, is_ipv6, Sockets}
use nesquic.Net.Opening.{dual_stack}

module _ (s : Sockets) where
  open s use {World, create, bind as bind_to}

  dual_stack_and_bind : SocketAddr → Task World (Unit {0})
  dual_stack_and_bind addr = do
    _ ← dual_stack s (is_ipv6 addr)
    or_fail (bind_to addr) "binding endpoint"

  pub bind_socket : SocketAddr → Task World (Unit {0})
  bind_socket addr = do _ ← or_fail (create addr) "create socket"; dual_stack_and_bind addr
