-- ===== src/Quinn.antt =====
-- iut/quinn: the client and the server over the crate quinn. iut/noq is the same program over the
-- crate noq.
pub mod Streams
pub mod Server
pub mod Crates
pub mod Client
pub mod Connect
pub mod Listen
pub mod Exchange
pub mod Program
mod Tests
