-- ===== src/Workload.antt =====
-- The client's workload: the operations of a run and how the client threads share them.
pub mod Chunks
pub mod Generate
pub mod Files
pub mod Split
pub mod Zipfian
pub mod Partition
pub mod Database
