-- ===== src/Recovery.antt =====
-- The package src/app/recovery.
pub mod Models
pub mod Gate
pub mod Request
pub mod Objects
pub mod Service
pub mod Reopen
pub mod Laws
pub mod ReopenLaws
