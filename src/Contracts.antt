-- ===== src/Contracts.antt =====
-- specification/models_v1.1(1).py: the contract objects that the modelled parts exchange.
pub mod Enums
pub mod Locators
pub mod Evidence
pub mod Blueprint
pub mod Planning
pub mod Questions
pub mod Compare
