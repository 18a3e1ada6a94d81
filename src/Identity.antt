-- ===== src/Identity.antt =====
-- services/identity-service/src: one-time codes, accounts, and sessions of tokens.
pub mod Redis
pub mod Otp
pub mod Users
pub mod Ttl
pub mod Auth
pub mod Profile
pub mod Sessions
