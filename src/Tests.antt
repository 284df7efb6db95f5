-- ===== src/Tests.antt =====
-- Runs of the model on concrete data, and the theorems at concrete data.
mod Cache
mod Exceptions
mod Resolve
mod Worker
mod Storage
mod App
mod Config
mod Solve
mod InputFile
mod Workspace
mod WorkspaceLock
mod Logging
mod Exporter
mod Transcode
