-- ===== src/Volumes.antt =====
-- internal/app/volumes.go: which volumes of a series are complete.
pub mod Names
pub mod Group
pub mod Check
pub mod Whole
pub mod Slug
pub mod Ranges
pub mod Partition
