-- ===== src/Metrics.antt =====
-- internal/metrics.
pub mod Middleware
pub mod Collector
pub mod Store
