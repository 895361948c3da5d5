-- ===== src/Metrics.antt =====
-- nesquic/src/metrics/mod.rs: what is recorded, reported and pushed to InfluxDB.
pub mod Sort
pub mod Tags
pub mod Volumes
pub mod Lines
pub mod Probes
pub mod Push
pub mod Collector
pub mod Pipeline
mod Tests
