-- ===== src/Tests.antt =====
-- The development at concrete inputs.
mod Data
mod Processing
mod ReadBack
mod Accounts
mod Synchronizer
mod Messages
mod Requests
mod Storage
mod Numbers
mod Workers
mod Builders
mod Delivery
mod Startup
mod Unordered
