-- ===== src/Sequence.antt =====
-- internal/sequence: a release's place in the author's numbering, and its position in the series.
pub mod Resolve
pub mod Order
pub mod Range
pub mod Overrides
pub mod Words
pub mod Detect
pub mod Title
pub mod WordBounds
pub mod Consistent
pub mod Index
pub mod Labels
pub mod Stable
