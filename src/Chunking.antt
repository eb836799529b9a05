-- ===== src/Chunking.antt =====
-- Chunking of a document's text (backend/services/ingestion_pipeline.py, the strategies and what they
-- use).
pub mod Lines
pub mod Blocks
pub mod Documents
pub mod Strategies
pub mod Examples
