-- ===== src/Regimes.antt =====
-- Layer 2, src/aurax/l2_regime: the detector of regimes and its hidden Markov model.
pub mod Detector
pub mod Hmm
pub mod Fitting
