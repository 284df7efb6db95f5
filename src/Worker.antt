-- ===== src/Worker.antt =====
-- conda_presto/worker.py: the process that keeps loaded indexes between HTTP solves. What the
-- operating system does during a call (a process that dies, a pipe that breaks, a deadline that
-- passes, a shutdown from another thread) is an argument of the call.
pub mod Child
pub mod Stop
pub mod Start
pub mod Execute
pub mod Life
pub mod Answers
