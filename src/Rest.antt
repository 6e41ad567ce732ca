-- ===== src/Rest.antt =====
-- cmd/indexer-rest: the read-only HTTP interface over the repository, behind a cache.
pub mod Service
pub mod Routes
pub mod Handlers
pub mod Cache
