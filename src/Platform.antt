-- ===== src/Platform.antt =====
-- internal/platform: the connectors to X and Nostr, and the X authorization.
pub mod Errors
pub mod Contracts
pub mod Nostr
pub mod X
pub mod Oauth
pub mod Posting
