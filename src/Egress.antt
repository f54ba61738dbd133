-- ===== src/Egress.antt =====
-- internal/egress: endpoints and their health (`Types`, `Registry`, `Health`), the choice of an exit
-- (`Selector`) and the boundary to the privileged process (`Broker`).
pub mod Types
pub mod Registry
pub mod Catalog
pub mod Health
pub mod Selector
pub mod Broker
