-- ===== src/Execution.antt =====
-- Layer 7, src/aurax/l7_execution: the broker and its paper implementation, the guards, and the
-- executor with its order ids, retries and journal.
pub mod Broker
pub mod Guards
pub mod Executor
