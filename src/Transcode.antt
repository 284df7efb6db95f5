-- ===== src/Transcode.antt =====
-- conda_presto/lockfile_transcode.py: a conda-lock-v1 file turned into records without a fetch.
pub mod Records
pub mod CondaLock
