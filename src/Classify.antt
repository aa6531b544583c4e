-- ===== src/Classify.antt =====
-- internal/classify: which rule a release follows, and which of its content is delivered.
pub mod Select
pub mod Content
pub mod Explain
pub mod Decide
pub mod FirstRule
pub mod Reference
pub mod Conflicts
pub mod Override
