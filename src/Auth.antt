-- ===== src/Auth.antt =====
-- src/modules/auth: refresh sessions, the tokens of e-mailed links, and the use cases over them.
pub mod Sessions
pub mod Refresh
pub mod Links
pub mod Account
pub mod Access
mod Tests
