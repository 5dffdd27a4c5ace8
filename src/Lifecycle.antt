-- ===== src/Lifecycle.antt =====
-- The life of a model: the Go/No-Go gate of src/aurax/validation/harness.py and the retraining of
-- src/aurax/lifecycle/retrain.py.
pub mod Gate
pub mod Retrain
