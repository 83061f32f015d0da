-- ===== src/Jobs/History.antt =====
-- What the operations do to the tables of jobs and of control records, and what holds of them in every
-- history.
pub mod Change
pub mod Audit
pub mod Evolving
pub mod Steps
pub mod Operations
pub mod Cancellations
pub mod Continuations
pub mod Recovery
pub mod Claims
pub mod Publication
pub mod Moves
pub mod Cancelled
pub mod Continued
pub mod Once
pub mod Attempts
