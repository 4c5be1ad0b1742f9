-- ===== src/Auth.antt =====
-- services/auth_service
pub mod Entity
pub mod Store
pub mod Service
pub mod Requests
mod Sessions
mod Keeps
pub mod Revoked
pub mod Ended
pub mod Healthy
pub mod Login
pub mod Gateway
pub mod Http
mod Tests
