-- ===== src/Order.antt =====
-- services/order_service
pub mod Entity
pub mod Pricing
pub mod World
pub mod Repository
pub mod Spec
pub mod Service
pub mod Requests
pub mod Document
mod Tests
pub mod Proto
pub mod Events
pub mod Search
pub mod Rpc
