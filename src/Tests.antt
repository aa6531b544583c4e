-- ===== src/Tests.antt =====
-- Concrete inputs for the theorems, and runs of the definitions.
mod Data
mod Delivery
mod Sequence
mod Classify
mod Detect
mod Index
mod Override
mod Names
mod Reorder
mod World
mod Execute
mod Volumes
