-- ===== src/Workspace.antt =====
-- conda_presto/workspace.py: the targets of a workspace manifest, and what is done with them.
pub mod Error
pub mod Config
pub mod Select
pub mod Input
pub mod Output
pub mod Solve
pub mod Export
