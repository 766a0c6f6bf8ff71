-- ===== src/Identity.antt =====
-- The package src/app/identity.
pub mod Models
pub mod Passwords
pub mod Attempts
pub mod Sessions
pub mod Credentials
pub mod Login
pub mod Exchange
pub mod Accounts
pub mod RecoveryRequests
pub mod AttemptLaws
pub mod SessionLaws
pub mod LoginLaws
pub mod ExchangeLaws
pub mod RequestLaws
pub mod CredentialLaws
