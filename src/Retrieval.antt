-- ===== src/Retrieval.antt =====
-- The retrieval settings of a request (backend/services/retrieval_config.py,
-- backend/services/retrieval_presets.py), and the context that is built from what retrieval finds
-- (backend/services/context_service.py).
pub mod Fields
pub mod Config
pub mod Presets
pub mod Context
mod Examples
