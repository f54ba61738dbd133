-- ===== src/Platform/Nostr.antt =====
-- internal/platform/nostr.go: events (`Event`), remote signing (`Signer`), and the publication to
-- three relays (`Connector`).
pub mod Event
pub mod Signer
pub mod Connector
pub mod Signed
pub mod Relays
pub mod Quorum
