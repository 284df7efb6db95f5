-- ===== src/Resolve.antt =====
-- conda_presto/resolve.py
pub mod Dispatch
pub mod Platform
pub mod Snapshot
pub mod Index
pub mod Solve
