-- ===== src/Identity.antt =====
-- services/identity: accounts, and the sessions that refresh tokens keep open.
pub mod Domain
pub mod Account
pub mod Store
pub mod Session
pub mod Registration
pub mod Later
pub mod Families
pub mod Rotation
pub mod Chains
pub mod Refreshed
pub mod Accepted
pub mod Reuse
pub mod SignIn
pub mod Unannounced
