-- ===== src/Works.antt =====
-- The package src/app/works.
pub mod Models
pub mod Guards
pub mod Service
pub mod GuardLaws
pub mod Maintained
pub mod Writes
pub mod Laws
pub mod Removal
pub mod Steps
pub mod Conflicts
pub mod Roles
pub mod Refinement
