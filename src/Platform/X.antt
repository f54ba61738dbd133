-- ===== src/Platform/X.antt =====
-- internal/platform/x.go: one post to X's official endpoint.
pub mod Text
pub mod Status
pub mod Connector
pub mod Attempts
pub mod Branches
pub mod Course
pub mod Waits
