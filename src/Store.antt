-- ===== src/Store.antt =====
-- internal/store/sqlite.go: the tables (`Tables`), the job statements (`Jobs`), audit events and
-- the emergency stop (`Records`), receipts (`Receipts`) and stored secrets (`Secrets`).
pub mod Tables
pub mod Jobs
pub mod Records
pub mod Receipts
pub mod Secrets
