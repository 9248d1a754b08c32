-- ===== src/Tests.antt =====
-- The theorems at concrete inputs, and runs of the definitions.
pub mod Data
pub mod Pool
pub mod Upstream
pub mod Stubs
pub mod Requests
pub mod Answers
