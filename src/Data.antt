-- ===== src/Data.antt =====
-- Layer 0, src/aurax/l0_data: the frames, the stores, and the ingestion of market data.
pub mod Frame
pub mod Schema
pub mod Store
pub mod Repository
pub mod Ingest
pub mod Terminal
