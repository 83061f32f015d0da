-- ===== src/Validation.antt =====
-- comprehension_verification/validation.py: the fail-closed validators.
pub mod Error
pub mod Context
pub mod Mapping
pub mod Plan
pub mod Candidate
pub mod Review
