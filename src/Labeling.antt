-- ===== src/Labeling.antt =====
-- The event labels of src/aurax/l4_labeling.
pub mod Barrier
pub mod Trend
pub mod Uniqueness
pub mod Labeler
