-- ===== src/Results.antt =====
-- AAL/ResultProcessor.cpp
pub mod State
pub mod Returns
pub mod Handlers
pub mod Transit
pub mod Accounts
pub mod Deliver
pub mod Recycle
pub mod Invariant
pub mod Metadata
pub mod Register
pub mod Reach
pub mod Guarantees
pub mod Exit
pub mod Errors
