-- ===== src/Domain.antt =====
-- internal/domain: the job's life cycle (`State`), the text that is published (`Content`) and the
-- hash that an operator approves (`Approval`).
pub mod State
pub mod Types
pub mod Content
pub mod Approval
