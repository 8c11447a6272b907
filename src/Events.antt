-- ===== src/Events.antt =====
-- src/modules/events: events, who may enter them, and their publication.
pub mod Domain
pub mod Access
pub mod Store
pub mod UseCases
mod Tests
