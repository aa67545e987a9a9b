-- ===== src/Inventory.antt =====
-- services/inventory: the stock of a warehouse, and the holds that orders take on it.
pub mod Domain
pub mod Store
pub mod Repository
pub mod Service
