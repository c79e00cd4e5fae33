-- ===== src/Bff/Onboarding.antt =====
-- The onboarding of customers: the messages of the identity service, the client that calls it, and
-- the operations of the gateway.
pub mod Messages
pub mod Client
pub mod Handlers
pub mod Direct
