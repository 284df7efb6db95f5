-- ===== src/Exceptions.antt =====
-- conda_presto/exceptions.py
pub mod Value
pub mod Text
pub mod Redact
pub mod Logging
