-- ===== src/Auth.antt =====
-- internal/auth/passkeys.go: the operator's passkeys, sessions and recovery code.
pub mod Manager
pub mod Sessions
pub mod Clearance
pub mod Liveness
pub mod Single
pub mod Enrolment
pub mod Recovery
pub mod Handlers
