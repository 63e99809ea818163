-- ===== src/Tests.antt =====
-- Runs of the modelled code at concrete inputs: the theorems applied where their conditions hold.
pub mod KeyStore
pub mod Scalars
pub mod Sharing
pub mod Dkg
pub mod Refresh
pub mod Recovery
pub mod Ibe
pub mod Memory
pub mod AutoHeal
pub mod Reshare
pub mod Crypto
pub mod Dealers
pub mod Session
pub mod Scheduler
pub mod Restore
pub mod Waits
pub mod Merkle
pub mod Signing
