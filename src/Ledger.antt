-- ===== src/Ledger.antt =====
-- The package ledger.
pub mod Types
pub mod Transaction
pub mod Mempool
pub mod Batch
pub mod Storage
pub mod Validators
pub mod Slashing
pub mod ApplySlash
pub mod Block
pub mod Frame
pub mod Startup
pub mod ValidatorFiles
