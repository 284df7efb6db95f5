-- ===== src/InputFile.antt =====
-- conda_presto/inputs.py: what an uploaded file must keep to, and the process that parses it.
pub mod Limits
pub mod Name
pub mod Process
pub mod Request
pub mod Parse
