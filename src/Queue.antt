-- ===== src/Queue.antt =====
-- The ingestion queue: its jobs and dead letters (backend/services/queue_base.py), and the in-memory
-- queue with its workers (backend/services/queue_asyncio.py).
pub mod Jobs
pub mod Outcome
pub mod Asyncio
pub mod Redis
pub mod Contract
mod Examples
