-- ===== src/Examples.antt =====
-- The theorems at concrete inputs.
mod Wires
mod Requests
mod Responses
mod Transport
mod Pools
mod Shards
mod Gathered
mod Calls
mod Resumption
mod Pooled
mod Streams
mod Races
