-- ===== src/Validation.antt =====
-- The leakage and validation logic of src/aurax/validation.
pub mod Purge
pub mod Scores
pub mod Baselines
pub mod Splits
pub mod OutOfFold
pub mod WalkForward
pub mod Harness
