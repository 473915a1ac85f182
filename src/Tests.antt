-- ===== src/Tests.antt =====
-- The theorems at concrete inputs, and runs of the definitions.
mod Frames
mod Replays
mod Ephemerals
mod Queues
mod Flows
mod Protocols
mod Counters
mod Pools
mod Sizes
mod Tunnels
mod Auths
mod Sessions
mod Shapers
