-- ===== src/Notifications.antt =====
-- src/modules/notifications: what is stored for the members of an event, and what is sent to them.
pub mod Port
pub mod Store
pub mod Laws
pub mod Gateway
pub mod Processor
