-- ===== src/History.antt =====
-- Request-scoped chat history (backend/services/history_config.py): which settings a request gets,
-- which messages reach retrieval and generation, and how many messages a session load asks for.
pub mod Fields
pub mod Config
pub mod Windows
pub mod Turn
mod Examples
