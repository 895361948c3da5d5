-- ===== src/Perf.antt =====
-- utils/src/perf.rs: the request, the blob that answers it, and the statistics of the runs.
pub mod Bytes
pub mod Blob
pub mod Stats
