-- ===== src/Workspaces.antt =====
-- The package src/app/workspaces.
pub mod Models
pub mod Members
pub mod Access
pub mod Invitations
pub mod Membership
pub mod Inviting
pub mod Accepting
pub mod Exit
pub mod Scope
pub mod CloseLaws
pub mod ExitLaws
pub mod InboxLaws
pub mod InboxReplay
pub mod InvitingLaws
pub mod ExitProgress
