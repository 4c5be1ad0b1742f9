-- ===== src/User.antt =====
-- services/user_service
pub mod Entity
pub mod Repository
pub mod Service
pub mod Http
pub mod Requests
pub mod Steps
pub mod Handled
pub mod Indexed
pub mod Roles
pub mod Valid
pub mod Logins
pub mod Passwords
mod Tests
