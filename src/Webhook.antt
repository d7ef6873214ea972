-- ===== src/Webhook.antt =====
-- The admission webhook: what it fills in, and what it lets through.
pub mod Default
pub mod Validate
pub mod Admission
pub mod Tests
