-- ===== src/Ingestion.antt =====
-- The ingestion of a document (backend/services/ingestion_pipeline.py) and the document's row in the
-- database (backend/db/sqlalchemy_service.py).
pub mod Records
pub mod Pages
pub mod Row
pub mod Formats
pub mod FileName
pub mod Pipeline
pub mod Upload
mod Examples
