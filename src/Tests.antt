-- ===== src/Tests.antt =====
-- Runs of the theorems at concrete inputs.
mod Inventory
mod Order
mod Payment
mod Charges
mod Identity
mod Checkout
mod Relay
