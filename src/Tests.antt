-- ===== src/Tests.antt =====
-- The theorems at concrete inputs.
mod Memory
mod Flows
mod Guards
mod Effects
mod Retries
mod Graphs
mod Nodes
mod Runs
mod Workflows
mod Members
mod Lifecycles
mod Definitions
mod Terminals
mod Redis
mod Queues
mod Pushes
mod Executors
mod Delays
