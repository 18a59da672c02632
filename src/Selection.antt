-- ===== src/Selection.antt =====
-- app/selection: one Instagram and one Facebook URL out of a business's candidate URLs.
pub mod Candidate
pub mod Ranking
pub mod Sorting
pub mod Dedup
pub mod Engine
pub mod Size
pub mod Best
