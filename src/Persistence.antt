-- ===== src/Persistence.antt =====
-- The package persistence/redis. The Redis client is a parameter.
pub mod Client
pub mod Message
pub mod ShardStorage
pub mod Queue
pub mod MetadataStore
