-- ===== src/Monitoring.antt =====
-- src/aurax/l8_monitoring: the alerts, the decay detector and the monitor.
pub mod Alerts
pub mod Decay
pub mod Journal
pub mod Monitor
