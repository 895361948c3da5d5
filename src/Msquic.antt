-- ===== src/Msquic.antt =====
-- iut/msquic/src: the client and the server over msquic, in C++.
pub mod Library
pub mod Common
pub mod Protocol
pub mod Server
pub mod Client
pub mod Listener
pub mod Program
