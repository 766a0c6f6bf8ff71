-- ===== src/Files.antt =====
-- The package src/app/files.
pub mod Models
