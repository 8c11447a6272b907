-- ===== src/Seating.antt =====
-- src/modules/seating: the tables of an event and who sits where.
pub mod Domain
pub mod Store
pub mod UseCases
mod Tests
