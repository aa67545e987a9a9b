-- ===== src/Order.antt =====
-- services/order: the orders and the checkout saga.
pub mod Domain
pub mod Store
pub mod Placing
pub mod Checkout
pub mod Pages
pub mod Reserved
pub mod Repeated
pub mod Listed
pub mod Saga
