-- ===== src/Semantics.antt =====
-- src/error_semantics.rs: what an error of the upstream says, by its status, headers and body.
pub mod Payload
pub mod Analysis
pub mod Numbers
