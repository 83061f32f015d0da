-- ===== src/Planning.antt =====
-- The deterministic planner of comprehension_verification/planning.py.
pub mod Scores
pub mod Search
pub mod Build
