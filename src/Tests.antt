-- ===== src/Tests.antt =====
-- The theorems at concrete inputs, and runs of the definitions.
mod Packing
mod Batches
mod Codes
mod Sizes
mod Selections
mod Files
mod Deletions
mod Locations
mod Refinement
