-- ===== src/Features.antt =====
-- Layer 1, src/aurax/l1_features: the features of a bar, and that they know no later bar.
pub mod Series
pub mod Base
pub mod Volatility
pub mod TrendMemory
pub mod Sessions
pub mod CrossPair
pub mod Pipeline
pub mod Trailing
pub mod Heads
pub mod PointInTime
