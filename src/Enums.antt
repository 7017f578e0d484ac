-- ===== src/Enums.antt =====
-- The enumerations of backend/app/core/enums.py and of the risk detector: a constructor for each member.
mod Cases
mod Decisions
mod Workflows
mod Risks
pub use Cases.*
pub use Decisions.*
pub use Workflows.*
pub use Risks.*
