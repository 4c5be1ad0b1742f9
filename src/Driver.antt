-- ===== src/Driver.antt =====
-- services/driver_service
pub mod Entity
pub mod Repository
pub mod Service
pub mod Requests
pub mod Claims
pub mod Http
pub mod Ratings
mod Tests
