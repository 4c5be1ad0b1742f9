-- ===== src/Wallet.antt =====
-- services/wallet_service
pub mod Entity
pub mod Store
pub mod Transact
pub mod Service
pub mod Spec
pub mod Ledger
pub mod Requests
mod Tests
pub mod Http
