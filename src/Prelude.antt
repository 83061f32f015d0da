-- ===== src/Prelude.antt =====
-- Shared names, tests and lemmas.
pub mod Common
pub mod Tests
pub mod Eq
pub mod Result
pub mod Rows
pub mod Lists
pub mod Sets
pub mod Floats
pub mod Sort
