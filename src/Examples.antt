-- ===== src/Examples.antt =====
-- Runs of the program at concrete inputs.
pub mod Fixtures
mod Mail
mod Todos
mod Accounts
mod Recoveries
pub mod Teams
mod Workspaces
mod Works
