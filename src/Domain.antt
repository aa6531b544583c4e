-- ===== src/Domain.antt =====
-- The data model, internal/domain/{types,publication,labels,sequence}.go: a record for each struct,
-- a data type for each closed set of string constants. The constants that a configuration file can
-- set to any text (release role, content strategy, output format, preface mode) stay texts.
-- `time.Time` is a natural number, the instant; a pointer is an `Option`.
pub mod Publication
pub mod Release
pub mod Decision
pub mod Library
pub mod Plans
pub mod Explanation
