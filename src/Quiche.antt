-- ===== src/Quiche.antt =====
-- iut/quiche: the application that both ends run over the crate tokio_quiche.
pub mod Connection
pub mod Benchmark
pub mod Crates
pub mod Client
pub mod Connect
pub mod Server
mod Tests
