-- ===== src/Storage.antt =====
-- conda_presto/storage.py: the queue that serializes a persistent store's operations.
pub mod Operation
pub mod Written
pub mod Coordinator
pub mod Increasing
pub mod Order
pub mod Served
pub mod Progress
