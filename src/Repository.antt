-- ===== src/Repository.antt =====
-- repository/repository_ent.go: the repository that all three programs share, over a database.
pub mod Convert
pub mod Blocks
pub mod Transactions
pub mod Accounts
pub mod Transfers
pub mod Builders
