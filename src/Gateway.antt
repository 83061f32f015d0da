-- ===== src/Gateway.antt =====
-- The gateway of model calls in comprehension_verification/model_gateway/gateway.py: the choice of an
-- approved route, and the governed loop of attempts around one call.
pub mod Routes
pub mod Approved
pub mod Attempts
pub mod Governed
