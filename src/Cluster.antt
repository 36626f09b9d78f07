-- ===== src/Cluster.antt =====
-- The package cluster: the shards of a node, and which of them run.
pub mod Ring
pub mod Shards
pub mod Requests
pub mod Membership
