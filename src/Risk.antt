-- ===== src/Risk.antt =====
-- Layer 6, src/aurax/l6_risk/sizing.py: position sizing behind the risk rules.
pub mod Records
pub mod Formulas
pub mod Manager
pub mod Allocation
