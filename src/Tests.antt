-- ===== src/Tests.antt =====
-- Small disks and tables, and the theorems applied to them.
mod Data
mod Sorting
mod Batches
mod Charging
mod Hashes
mod Allocation
mod Trims
mod Places
mod Window
mod Writes
mod Sharing
mod Buffers
mod Swaps
mod Files
mod Groups
mod Traces
mod Start
mod Attrs
