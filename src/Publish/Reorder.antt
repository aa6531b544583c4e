-- ===== src/Publish/Reorder.antt =====
-- `FilesystemTarget.Reorder`, internal/publish/filesystem.go: its result is a delivery order.
pub mod Graph
pub mod Ends
pub mod Visited
pub mod Visits
pub mod Sorted
