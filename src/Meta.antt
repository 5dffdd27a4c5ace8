-- ===== src/Meta.antt =====
-- Layer 5, src/aurax/l5_meta: the model that says whether a side is to be trusted.
pub mod Calibration
pub mod Model
pub mod Gated
pub mod Training
pub mod Logistic
