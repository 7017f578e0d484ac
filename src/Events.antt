-- ===== src/Events.antt =====
-- Events of payment providers: how they are checked, deduplicated, and turned into recovery cases.
pub mod Canonical
pub mod Keys
pub mod Provision
pub mod Handlers
pub mod Engine
pub mod Recording
pub mod Normalizer
pub mod Validator
pub mod Ingestion
