-- ===== src/Auth.antt =====
-- src/core/auth.cpp.
pub mod Hex
pub mod Base64
pub mod Password
pub mod RateLimit
pub mod Permissions
pub mod Sessions
pub mod Accounts
