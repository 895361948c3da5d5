-- ===== src/Noq.antt =====
-- iut/noq. Its client.rs and server.rs differ from those of iut/quinn in the name of the crate, in
-- TARGET and in one `trace!`, so each definition here is that of Quinn, over the interfaces of
-- Quinn/Streams.antt and Quinn/Crates.antt filled by the crate noq.
pub mod Client
pub mod Server
pub mod Program
mod Tests
