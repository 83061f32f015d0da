-- ===== src/Jobs.antt =====
-- The durable jobs of `Repository` in comprehension_verification/web/repository.py: their tables, the
-- operations of the queue, the worker and the control commands, and what holds of every history.
pub mod Documents
pub mod Tables
pub mod Queue
pub mod Cancel
pub mod Continue
pub mod Worker
pub mod Publish
pub mod History
pub mod Approval
