-- ===== src/Workload/Chunks/Agree.antt =====
-- The two ways to share out the operations agree.
