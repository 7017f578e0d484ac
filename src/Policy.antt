-- ===== src/Policy.antt =====
-- The policy engine: backend/app/policy.
pub mod Config
pub mod Models
pub mod Consent
pub mod Eligibility
pub mod RetryLimit
pub mod Strategy
pub mod Escalation
pub mod Aggregate
pub mod Inputs
pub mod Service
pub mod Safety
