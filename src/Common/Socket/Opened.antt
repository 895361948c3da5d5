-- ===== src/Common/Socket/Opened.antt =====
-- The socket that the binding makes.
use nesquic.Prelude.{◌≡◌, true, false, some, refl}
use nesquic.Prelude.Keeps.{Ensures, bind-Ensures}
use nesquic.Net.{SocketAddr, is_ipv6, Sockets, SocketView, IsSockets}
use nesquic.Net.Opening.{create-IsMade, IsMade, IsOpen, call-Ensures, dual_stack-IsOpen}
use nesquic.Common.Socket.{bind_socket, dual_stack_and_bind}

-- A socket of the address's family, bound to it; one for IPv6 takes IPv4 too.
pub record IsListening (addr : SocketAddr) (v : SocketView) : Type 0 where
  pub family : v.family_v6 ≡ is_ipv6 addr
  pub dual : is_ipv6 addr ≡ true → v.only_v6 ≡ false
  pub bound : v.bound ≡ some addr

module _ {s : Sockets} (laws : IsSockets s) where
  open s use {World, create, bind as bind_to}
  open laws use {view, system_only_v6, create_law, bind_law}

  -- When `bind_socket` returns without an error, whatever the state before, the socket is of the
  -- address's family and bound to the address, and an IPv6 socket takes IPv4 too.
  pub bind_socket-IsListening :
      (addr : SocketAddr)
      → Ensures (λ w. Unit {0}) (bind_socket s addr) (λ _ w. IsListening addr (view w))
  unfolding bind_socket dual_stack_and_bind
  bind_socket-IsListening addr =
      bind-Ensures _ (λ _ w. IsMade laws addr (view w)) _ _ _ (create-IsMade laws addr)
        (λ _.
          bind-Ensures _ (λ _ w. IsOpen laws addr (view w)) _ _ _ (dual_stack-IsOpen laws addr)
            (λ _.
              call-Ensures laws (IsOpen laws addr) (IsListening addr)
                (λ v. record v { bound = some addr }) (bind_to addr) _ (bind_law addr)
                (λ v h. record { family = h.family; dual = h.dual; bound = refl })))
