-- ===== src/Accounts.antt =====
-- src/accounts: the pool of accounts.
pub mod Types
pub mod Block
pub mod Lifecycle
pub mod AuthInvalid
pub mod Refresh
pub mod Wake
pub mod Selection
pub mod Import
pub mod Sync
pub mod Invariant
pub mod Store
