-- ===== src/Tests.antt =====
-- Runs of the model at concrete inputs.
pub mod Data
pub mod Planner
pub mod Validators
pub mod Questions
pub mod Limiter
pub mod Keys
pub mod Jobs
pub mod Controls
pub mod Approvals
pub mod Calls
pub mod Stages
