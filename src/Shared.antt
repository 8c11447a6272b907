-- ===== src/Shared.antt =====
-- src/shared/domain: the errors that the domain names, texts and amounts of money.
pub mod DomainError
pub mod Text
pub mod Decimal
pub mod Money
pub mod Cursor
