-- ===== src/Guests.antt =====
-- src/modules/guests: the guests, their invitations and tokens, the public answers, the worker that mails
-- and the delivery webhooks.
pub mod Guest
pub mod Table
pub mod Invitation
pub mod Store
pub mod Delivery
pub mod UseCases
pub mod Worker
pub mod Laws
mod Tests
