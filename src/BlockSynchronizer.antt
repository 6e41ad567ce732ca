-- ===== src/BlockSynchronizer.antt =====
-- cmd/block-synchronizer: from the chain's GraphQL server to the message broker.
pub mod Poll
pub mod History
pub mod Bus
pub mod Restore
pub mod Session
pub mod Subscribe
pub mod Push
pub mod Highest
