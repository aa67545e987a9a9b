-- ===== src/Payment.antt =====
-- services/payment: attempts to collect the money for an order.
pub mod Domain
pub mod Store
pub mod Settle
pub mod Initiate
pub mod Reads
pub mod Owned
pub mod Paid
pub mod Runs
pub mod Keys
pub mod Replays
pub mod Refines
