-- ===== src/Cases.antt =====
-- Recovery cases: how they are ranked and classified, and the services that open and move them.
pub mod Priority
pub mod Risk
pub mod Service
pub mod Listing
pub mod Detection
