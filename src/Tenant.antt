-- ===== src/Tenant.antt =====
-- Tenant isolation: the process-local registry of a tenant's documents
-- (backend/services/tenant_registry.py), and the documents that a retrieval may search
-- (backend/services/retrieval_service.py, backend/services/chat_service.py).
pub mod Names
pub mod Registry
pub mod Scope
mod Examples
