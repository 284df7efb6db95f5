-- ===== src/Cache.antt =====
-- conda_presto/cache.py: the retained results of solves.
pub mod Types
pub mod Keys
pub mod Memory
pub mod Stored
