-- ===== src/Executor/Worker.antt =====
-- util/worker.go, and the methods Start, Stop and IsRunning that the executors of shard/executor
-- share.
pub mod Steps
pub mod Patient
pub mod Races
