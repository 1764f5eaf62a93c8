-- ===== src/Tests.antt =====
-- The theorems at work on concrete inputs.
mod Samples
mod Helpers
mod Pallet
mod Pool
mod Rocks
mod Chain
mod Ghost
mod Ssz
mod Finality
mod Slots
mod Registry
mod Blocks
