-- ===== src/Transfer/Plan/Coverage.antt =====
-- How often the operations between two replicas deliver a cell of the parameter.
pub mod Pairs
pub mod Delivery
pub mod Exact
pub mod Total
pub mod Once
