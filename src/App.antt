-- ===== src/App.antt =====
-- internal/app: the use cases of the controller.
pub mod Service
pub mod Frames
pub mod Approval
pub mod Stop
pub mod Drafts
