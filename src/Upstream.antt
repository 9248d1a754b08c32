-- ===== src/Upstream.antt =====
-- src/upstream: the headers and marks of a request to the upstream, and the headers of its answer.
pub mod Fingerprint
pub mod Headers
pub mod Requests
pub mod Sanitize
