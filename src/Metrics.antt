-- ===== src/Metrics.antt =====
-- metrics.py: the counters and gauges of a source in Redis, and their Prometheus text. Redis' hashes and
-- sets are an interface.
pub mod Hashes
pub mod Sample
pub mod Recording
pub mod Counting
pub mod Fields
pub mod Totals
pub mod Rendering
pub mod Lines
pub mod Exposed
mod Tests
