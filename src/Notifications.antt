-- ===== src/Notifications.antt =====
-- packages/notifications: the outbox of messages, and their delivery with retries.
pub mod Types
pub mod Policies
pub mod Outbox
pub mod Delivery
pub mod Transitions
pub mod Attempts
pub mod Delays
pub mod Results
pub mod Progress
pub mod Rounds
pub mod Blocked
pub mod Returns
pub mod Lifecycle
