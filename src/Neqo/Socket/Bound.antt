-- ===== src/Neqo/Socket/Bound.antt =====
-- The socket that the binding makes.
use nesquic.Prelude.{◌≡◌, true, false, some, refl}
use nesquic.Prelude.Keeps.{Ensures, bind-Ensures}
use nesquic.Net.{SocketAddr, is_ipv6, Sockets, SocketView, IsSockets}
use nesquic.Neqo.Socket.{bind_socket, dual_stack_and_bind, bind_nonblocking}
use nesquic.Net.Opening.{create-IsMade, IsMade, IsOpen, call-Ensures, dual_stack-IsOpen}

-- A socket of the address's family, bound to it, that does not block; one for IPv6 takes IPv4 too.
pub record IsBound (addr : SocketAddr) (v : SocketView) : Type 0 where
  pub family : v.family_v6 ≡ is_ipv6 addr
  pub dual : is_ipv6 addr ≡ true → v.only_v6 ≡ false
  pub bound : v.bound ≡ some addr
  pub nonblocking : v.nonblocking ≡ true

module _ {s : Sockets} (laws : IsSockets s) where
  open s use {World, create, set_only_v6, bind as bind_to, set_nonblocking}
  open laws use {view, system_only_v6, create_law, set_only_v6_law, bind_law, set_nonblocking_law}

  -- When `bind_socket` returns without an error, whatever the state before, the socket is of the
  -- address's family, bound to the address and nonblocking, and an IPv6 socket takes IPv4 too.
  bind_socket-IsBound :
      (addr : SocketAddr)
      → Ensures (λ w. Unit {0}) (bind_socket s addr) (λ _ w. IsBound addr (view w))
  unfolding bind_socket dual_stack_and_bind bind_nonblocking
  bind_socket-IsBound addr =
      bind-Ensures _ (λ _ w. IsMade laws addr (view w)) _ _ _ (create-IsMade laws addr)
        (λ _.
          bind-Ensures _ (λ _ w. IsOpen laws addr (view w)) _ _ _ (dual_stack-IsOpen laws addr)
            (λ _.
              bind-Ensures _ (λ _ w. IsOpen laws addr (view w) × ((view w).bound ≡ some addr)) _ _ _
                (call-Ensures laws (IsOpen laws addr)
                  (λ v. IsOpen laws addr v × (v.bound ≡ some addr))
                  (λ v. record v { bound = some addr }) (bind_to addr) _ (bind_law addr)
                  (λ v h. (record { family = h.family; dual = h.dual }, refl)))
                (λ _.
                  call-Ensures laws (λ v. IsOpen laws addr v × (v.bound ≡ some addr)) (IsBound addr)
                    (λ v. record v { nonblocking = true }) (set_nonblocking true) _
                    (set_nonblocking_law true)
                    (λ v h. record {
                      family = h.0.family;
                      dual = h.0.dual;
                      bound = h.1;
                      nonblocking = refl;
                    }))))
