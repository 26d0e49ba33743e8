-- ===== src/Network.antt =====
-- The package network.
pub mod MiniBlock
pub mod Gateway
pub mod Peers
pub mod Gossip
