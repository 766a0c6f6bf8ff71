-- ===== src/Notifications.antt =====
-- The package src/app/notifications.
pub mod Models
pub mod Outbox
pub mod Todos
pub mod Requests
pub mod Dispatcher
pub mod Dispatch
pub mod Steps
pub mod Consistency
pub mod Keys
pub mod Finality
pub mod Claims
pub mod Stopping
pub mod Closing
pub mod TodoLaws
pub mod Envelope
pub mod Retry
pub mod Scope
pub mod Starting
pub mod Answering
pub mod Delivery
