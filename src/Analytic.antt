-- ===== src/Analytic.antt =====
-- services/analytic_service
pub mod Entity
pub mod Store
pub mod Service
pub mod Consumers
pub mod Http
pub mod Latest
pub mod Counted
pub mod Redelivered
pub mod Ingested
mod Tests
