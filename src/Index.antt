-- ===== src/Index.antt =====
-- The cache index of src/ldc.h: every server keeps, for every server, a table that says where that
-- server's cache holds each key, and the tables of the others are copies kept up by RDMA.
pub mod Api
pub mod Connect
pub mod Tables
pub mod Publish
pub mod Coherence
pub mod Lookup
pub mod Logs
