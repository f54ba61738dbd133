-- ===== src/Platform/Oauth.antt =====
-- internal/platform/xoauth.go: authorization of the program with X (OAuth 2.0 with PKCE), and the
-- custody of the tokens.
pub mod Values
pub mod Scopes
pub mod Answers
pub mod Requests
pub mod Custody
pub mod States
pub mod Once
pub mod Begun
pub mod Bodies
pub mod Granted
pub mod Renewed
pub mod Bearer
pub mod Revoked
