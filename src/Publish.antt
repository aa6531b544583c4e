-- ===== src/Publish.antt =====
-- internal/publish: the seam behind a downstream destination and its three adapters. What the
-- planner asks of an adapter is here; an adapter is a value of `Target`.
pub mod Target
pub mod Filesystem
pub mod Drop
pub mod Exec
pub mod Destination
pub mod Reorder
