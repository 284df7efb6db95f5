-- ===== src/WorkspaceLock.antt =====
-- conda_presto/workspace_lock.py: the saved targets of a conda.lock, with or without its manifest.
pub mod Loader
pub mod Select
pub mod Input
pub mod Output
pub mod Update
