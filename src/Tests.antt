-- ===== src/Tests.antt =====
-- The theorems at concrete inputs, in millionths.
pub mod Data
pub mod Risk
pub mod Execution
pub mod Validation
pub mod Models
pub mod Stores
pub mod Meta
pub mod Protocol
pub mod Settings
pub mod Features
pub mod Hmm
pub mod Database
