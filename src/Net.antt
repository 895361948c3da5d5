-- ===== src/Net.antt =====
-- Socket addresses, and what the programs use of a socket of the crate socket2 and of the system.
pub mod Memory
pub mod Opening
use nesquic.Prelude.{ℕ, ◌≡◌, Bool, true, false, Option, none, some}

-- An address and a port.
pub data SocketAddr : Type 0 where
  v4 : ℕ → ℕ → SocketAddr
  v6 : ℕ → ℕ → SocketAddr

abbrev pub is_ipv6 : SocketAddr → Bool
is_ipv6 (v4 ip port) = false
is_ipv6 (v6 ip port) = true

-- The socket that is being set up is a part of the state. A call returns `none` for `Err`.
pub record Sockets : Type 1 where
  pub World : Type 0
  -- `Socket::new(Domain::for_address(addr), …)`
  pub create : SocketAddr → World → Option (Unit {0}) × World
  pub set_only_v6 : Bool → World → Option (Unit {0}) × World
  pub bind : SocketAddr → World → Option (Unit {0}) × World
  pub set_nonblocking : Bool → World → Option (Unit {0}) × World
  -- `UdpSocketState::new`
  pub init_state : World → Option (Unit {0}) × World
  -- `tokio::net::UdpSocket::from_std`
  pub from_std : World → Option (Unit {0}) × World
  pub local_addr : World → Option SocketAddr × World

-- What an observer sees of the socket.
pub record SocketView : Type 0 where
  pub family_v6 : Bool
  pub only_v6 : Bool
  pub bound : Option SocketAddr
  pub nonblocking : Bool

abbrev pub Done : {A : Type 0} → Option A → SocketView → SocketView → Type 0
Done none v v' = Unit
Done (some _) v v' = v' ≡ v

-- The documented behaviour of the calls that succeed. The default of `only_v6` is the system's.
pub record IsSockets (s : Sockets) : Type 1 where
  pub view : s.World → SocketView
  pub system_only_v6 : Bool
  pub create_law :
      (addr : SocketAddr) (w : s.World)
      → Done
          (s.create addr w).0
          (record {
            family_v6 = is_ipv6 addr;
            only_v6 = system_only_v6;
            bound = none;
            nonblocking = false;
          })
          (view (s.create addr w).1)
  pub set_only_v6_law :
      (b : Bool) (w : s.World)
      → Done (s.set_only_v6 b w).0 (record (view w) { only_v6 = b }) (view (s.set_only_v6 b w).1)
  pub bind_law :
      (addr : SocketAddr) (w : s.World)
      → Done (s.bind addr w).0 (record (view w) { bound = some addr }) (view (s.bind addr w).1)
  pub set_nonblocking_law :
      (b : Bool) (w : s.World)
      → Done
          (s.set_nonblocking b w).0
          (record (view w) { nonblocking = b })
          (view (s.set_nonblocking b w).1)
