-- ===== src/EventProcessor.antt =====
-- cmd/event-processor/service/service.go: from a message to the database.
pub mod Attributes
pub mod Handlers
pub mod Process
pub mod Ledger
pub mod Queue
pub mod Statements
pub mod Workers
pub mod Success
pub mod Delivery
