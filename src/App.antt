-- ===== src/App.antt =====
-- conda_presto/app.py: what an HTTP request may ask for, and the cached solve.
pub mod Response
pub mod Channels
pub mod Caps
pub mod Request
pub mod Inputs
pub mod Solve
pub mod Run
