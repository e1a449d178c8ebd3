-- ===== src/Examples.antt =====
-- The theorems at concrete inputs: small pools, one mapped file, and a buffer on the third page.
mod States
mod Traced
mod Addresses
mod Pools
mod Reclaims
mod Records
mod Writes
mod Copies
mod Mappings
mod Firsts
mod Reports
mod Emptied
mod Starts
mod Reads
mod Unmaps
mod Streams
mod Moves
mod Ranges
mod Sequences
