-- ===== src/Tests.antt =====
-- The theorems at concrete inputs.
mod Data
mod Logs
mod Writes
mod Sweeps
mod Opens
mod Counters
mod Whole
mod Rings
mod Files
mod Growth
mod Locks
mod Calls
mod Index
mod Pools
