-- ===== src/Neqo.antt =====
-- iut/neqo: the client and the server over neqo-transport.
pub mod Transport
pub mod Memory
pub mod Server
pub mod Listen
pub mod Driver
pub mod Drive
pub mod Client
pub mod Connect
pub mod Program
pub mod Socket
pub mod Loopback
mod Tests
