-- ===== src/Failover.antt =====
-- src/failover.rs: one request is tried on one account after the other.
pub mod Settlement
pub mod Step
pub mod Loop
pub mod Ids
pub mod Measure
pub mod Advances
pub mod Terminates
