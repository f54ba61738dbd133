-- ===== src/Secure.antt =====
-- internal/secure: envelope encryption.
pub mod Envelope
pub mod MasterKey
