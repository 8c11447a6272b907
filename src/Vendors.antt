-- ===== src/Vendors.antt =====
-- src/modules/vendors: the vendors of an event, and the profiles of the marketplace.
pub mod Ref
pub mod Contracts
pub mod Profile
pub mod Catalog
mod Tests
