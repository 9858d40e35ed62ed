-- ===== src/Services.antt =====
-- control-plane/app/services: what the request handlers share.
pub mod Audit
pub mod Notify
pub mod Credentials
pub mod Outbox
