-- ===== src/Server.antt =====
-- The server thread of src/ldc.cpp and `Server` of src/connection.h and src/connection.cpp.
pub mod Api
pub mod State
pub mod Pending
pub mod Handler
pub mod Completions
pub mod Failures
pub mod Answers
pub mod Delivery
pub mod Puts
