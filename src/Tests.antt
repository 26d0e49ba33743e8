-- ===== src/Tests.antt =====
-- Concrete inputs at which the theorems apply.
mod Setup
mod Transactions
mod Batches
mod Slashes
mod Blocks
mod Proposals
mod Restarts
mod Wallets
mod Folders
mod Commands
mod Gateways
mod Registries
mod Messages
mod Nodes
