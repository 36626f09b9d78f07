-- ===== src/Shard.antt =====
-- The package shard: the flow engine of one partition, over the interface Storage.
pub mod Storage
pub mod Machine
pub mod Container
pub mod Engine
pub mod Requests
pub mod Effect
pub mod Steps
