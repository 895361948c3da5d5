-- ===== src/Net/Opening.antt =====
-- The part that `bind_socket` of iut/neqo/src/lib.rs and that of iut/common/src/lib.rs share, and what
-- the calls on a socket make of it.
use nesquic.Prelude.{◌≡◌, Option, true, String, false, some, none, refl, Bool}
use nesquic.Prelude.Keeps.{Ensures, Holds}
use nesquic.Prelude.Tasks.{Task, or_fail, pure, message}
use nesquic.Net.{SocketAddr, is_ipv6, Sockets, SocketView, IsSockets, Done, v4, v6}

module _ (s : Sockets) where
  open s use {World, set_only_v6}

  -- "Enables dual-stack IPv6 when the address is IPv6."
  unfoldable pub dual_stack : Bool → Task World (Unit {0})
  dual_stack true = or_fail (set_only_v6 false) "set_only_v6"
  dual_stack false = pure tt

module _ {s : Sockets} (laws : IsSockets s) where
  open s use {World, create, set_only_v6}
  open laws use {view, system_only_v6, create_law, set_only_v6_law}

  -- A call by its law, where what it makes of the view is wanted.
  pub call-Ensures :
      {A : Type 0} (P Q : SocketView → Type 0) (f : SocketView → SocketView)
      (call : World → Option A × World) (e : String)
      → ((w : World) → Done (call w).0 (f (view w)) (view (call w).1))
      → ((v : SocketView) → P v → Q (f v))
      → Ensures (λ w. P (view w)) (or_fail call e) (λ _ w. Q (view w))
  call-Ensures {A} P Q f call e law h w k = go (call w).0 (call w).1 (law w)
    where
      go :
          (r : Option A) (w' : World)
          → Done r (f (view w)) (view w')
          → Holds (λ _ w. Q (view w)) (message e r, w')
      go none w' same = tt
      go (some a) w' same = rw same (h (view w) k)

  abbrev pub IsMade : SocketAddr → SocketView → Type 0
  IsMade addr v = v.family_v6 ≡ is_ipv6 addr

  -- A socket on which nothing is set but its family, and for IPv6 that it takes IPv4 too.
  pub record IsOpen (addr : SocketAddr) (v : SocketView) : Type 0 where
    pub family : v.family_v6 ≡ is_ipv6 addr
    pub dual : is_ipv6 addr ≡ true → v.only_v6 ≡ false

  pub dual_stack-IsOpen :
      (addr : SocketAddr)
      → Ensures
          (λ w. IsMade addr (view w))
          (dual_stack s (is_ipv6 addr))
          (λ _ w. IsOpen addr (view w))
  unfolding dual_stack
  dual_stack-IsOpen (v4 ip port) = λ w h. record { family = h; dual = λ k. cc }
  dual_stack-IsOpen (v6 ip port) =
      call-Ensures (IsMade (v6 ip port)) (IsOpen (v6 ip port)) (λ v. record v { only_v6 = false })
        (set_only_v6 false) _ (set_only_v6_law false)
        (λ v h. record { family = h; dual = λ _. refl })

  pub create-IsMade :
      (addr : SocketAddr)
      → Ensures
          (λ w. Unit {0})
          (or_fail (create addr) "create socket")
          (λ _ w. IsMade addr (view w))
  create-IsMade addr =
      call-Ensures (λ _. Unit {0}) (IsMade addr)
        (λ _. record {
          family_v6 = is_ipv6 addr;
          only_v6 = system_only_v6;
          bound = none;
          nonblocking = false;
        })
        (create addr) _ (create_law addr) (λ v _. refl)
