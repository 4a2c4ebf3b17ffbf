-- ===== src/Oracle.antt =====
-- internal/oracle.
pub mod Aggregator
pub mod Engine
pub mod Flights
pub mod Signals
